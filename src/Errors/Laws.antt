-- ===== src/Errors/Laws.antt =====
-- errors/app_error.rs: an error with an appended detail, as the front end sees it.
use titan_ssh.Common.{Text, codes, ◌++◌, ◌≡◌, refl, some}
use titan_ssh.Errors.{
  AppError, ssh_connection_error, detail_of, to_string, code, with_appended_detail, to_info,
}

-- For every error, appending a detail keeps the code that crosses to the front end, and the new
-- detail is the old message, a full-width semicolon and the appended text.
to_info-with_appended_detail :
    (e : AppError) (extra : Text)
    → ((to_info (with_appended_detail e extra)).code ≡ (to_info e).code)
      × ((to_info (with_appended_detail e extra)).detail ≡ some (to_string e ++ codes "；" ++ extra))
unfolding to_info with_appended_detail code detail_of
to_info-with_appended_detail (ssh_connection_error d) extra = (refl, refl)
to_info-with_appended_detail e extra = (refl, refl)
