-- ===== src/HostService/Samples.antt =====
-- Test data for core/host_service.rs: a credential store that never fails, and a codec that stands
-- in for `serde_json`, with one terminated text for a field.
use titan_ssh.Common.{
  ℕ, ◌+◌, ◌-◌, ◌≡◌, refl, sym, ◌∙◌, ap, List, [], ◌∷◌, Option, none, some, Text, text_eq, nat_eq,
  ◌==◌, if◌then◌else◌, arith,
}
use titan_ssh.Errors.{AppError, Result, ok, err}
use titan_ssh.TrustStore.Records.{parsed}
use titan_ssh.HostService.Hosts.{AuthType, password, private_key, HostConfig, Json}
use titan_ssh.HostService.Service.{CredentialStore}

pub no_error : (e : AppError) → ◌≡◌ {A = Result (Unit {0})} (ok tt) (err e) → ⊥
no_error e h = cc

abbrev pub memory_store : CredentialStore (Text → Option Text)
memory_store = record {
  set = λ k v c. (λ j. if k == j then some v else c j, ok tt);
  delete = λ k c. (λ j. if k == j then none else c j, ok tt);
  read = λ k c. c k;
  read-set = λ k v j c h. refl;
  read-set_err = λ k v j c e h. absurd (no_error e h);
  read-delete = λ k j c h. refl;
}

unfoldable pub put_text : Text → Text → Text
put_text [] r = 0 ∷ r
put_text (c ∷ t) r = (c + 1) ∷ put_text t r

unfoldable pub on_first : ℕ → List Text → List Text
on_first c [] = (c ∷ []) ∷ []
on_first c (t ∷ ts) = (c ∷ t) ∷ ts

unfoldable pub texts_of : Text → List Text
texts_of [] = []
texts_of (x ∷ r) = let rest = texts_of r in if x == 0 then [] ∷ rest else on_first (x - 1) rest

unfoldable pub text_of : List Text → Text
text_of [] = []
text_of (t ∷ ts) = put_text t (text_of ts)

texts_of-put_text : (t r : Text) → texts_of (put_text t r) ≡ t ∷ texts_of r
unfolding texts_of put_text on_first
texts_of-put_text [] r = refl
texts_of-put_text (c ∷ t) r =
    let h = texts_of-put_text t r in let d : (c + 1) - 1 ≡ c = omega arith in ground arith

pub texts_of-text_of : (ts : List Text) → texts_of (text_of ts) ≡ ts
unfolding text_of texts_of
texts_of-text_of [] = refl
texts_of-text_of (t ∷ ts) = texts_of-put_text t (text_of ts) ∙ ap (λ x. t ∷ x) (texts_of-text_of ts)

unfoldable pub put_option : Option Text → Text
put_option none = []
put_option (some t) = 1 ∷ t

unfoldable pub option_of : Text → Option Text
option_of [] = none
option_of (c ∷ t) = some t

option_of-put : (o : Option Text) → option_of (put_option o) ≡ o
unfolding option_of put_option
option_of-put none = refl
option_of-put (some t) = refl

unfoldable pub put_auth : AuthType → Text
put_auth password = []
put_auth private_key = 1 ∷ []

unfoldable pub auth_of : Text → AuthType
auth_of [] = password
auth_of (c ∷ t) = private_key

auth_of-put : (a : AuthType) → auth_of (put_auth a) ≡ a
unfolding auth_of put_auth
auth_of-put password = refl
auth_of-put private_key = refl

unfoldable pub number_of : Text → ℕ
number_of [] = 0
number_of (n ∷ t) = n

unfoldable pub fields : List HostConfig → List Text
unfolding put_option put_auth
fields [] = []
fields (h ∷ hs) =
    h.id
    ∷ h.name
    ∷ h.host
    ∷ (h.port ∷ [])
    ∷ h.username
    ∷ put_auth h.auth_type
    ∷ put_option h.password_ref
    ∷ put_option h.private_key_path
    ∷ put_option h.passphrase_ref
    ∷ put_option h.remark
    ∷ h.group
    ∷ fields hs

unfoldable pub hosts_of : List Text → List HostConfig
unfolding option_of auth_of number_of
hosts_of (id ∷ name ∷ host ∷ port ∷ user ∷ auth ∷ pass ∷ path ∷ phrase ∷ remark ∷ group ∷ rest) =
    record {
      id = id;
      name = name;
      host = host;
      port = number_of port;
      username = user;
      auth_type = auth_of auth;
      password_ref = option_of pass;
      private_key_path = option_of path;
      passphrase_ref = option_of phrase;
      remark = option_of remark;
      group = group;
    }
    ∷ hosts_of rest
hosts_of ts = []

pub hosts_of-fields : (hs : List HostConfig) → hosts_of (fields hs) ≡ hs
unfolding fields hosts_of number_of
hosts_of-fields [] = refl
hosts_of-fields (h ∷ hs) =
    let a = auth_of-put h.auth_type in
    let b = option_of-put h.password_ref in
    let c = option_of-put h.private_key_path in
    let d = option_of-put h.passphrase_ref in
    let e = option_of-put h.remark in let f = hosts_of-fields hs in cc

pub codec_lem :
    (hosts : List HostConfig) (text : Text)
    → parsed (text_of (fields hosts)) ≡ parsed text
    → parsed (hosts_of (texts_of text)) ≡ parsed hosts
codec_lem hosts text h =
    let e : text_of (fields hosts) ≡ text = cc in
    ap (λ t. parsed (hosts_of (texts_of t))) (sym e)
    ∙ ap (λ ts. parsed (hosts_of ts)) (texts_of-text_of (fields hosts))
    ∙ ap parsed (hosts_of-fields hosts)

abbrev pub codec : Json
codec = record {
  print = λ hosts. parsed (text_of (fields hosts));
  parse = λ text. parsed (hosts_of (texts_of text));
  parse-print = codec_lem;
}
