-- ===== src/Guards/Tests.antt =====
-- src/config.rs: the guards on concrete statements.
use mcpg_plugin_backend_sql.Common.{
  ◌≡◌, ◌≢◌, refl, All, [], ◌∷◌, ◌++◌, some, ok, err, codes, text_eq, arith, true, false,
}
use mcpg_plugin_backend_sql.Guards.{
  content_after_semicolon, privileged_ddl, is_whitespace, reject_multi_statement, scan_statement,
  check_tail, after_scan, is_safe_sql_identifier, trim_start, after_newline, after_close, opening,
  strip_loop, strip_leading_whitespace_and_comments, first_token, is_one_of, check_second,
  check_first, check_trimmed, reject_privileged_ddl,
}
use mcpg_plugin_backend_sql.Guards.Statements.{
  quotes, reject_multi_statement-ends, reject_multi_statement-comment_apostrophe,
}
use mcpg_plugin_backend_sql.Guards.LeadIn.{
  blank, line, block, NoClose, put_leads, reject_privileged_ddl-put_leads,
}

stacked : reject_multi_statement (codes "SELECT 1; DROP TABLE t") ≡ err content_after_semicolon
unfolding reject_multi_statement scan_statement check_tail after_scan
stacked = refl

drop_user :
    reject_privileged_ddl (codes " -- x\n drop /* y */ user z")
    ≡ some (err (privileged_ddl (codes "DROP") (codes "USER")))
unfolding reject_privileged_ddl check_trimmed check_first check_second is_one_of text_eq first_token
    strip_leading_whitespace_and_comments strip_loop opening trim_start after_newline after_close
drop_user = refl

accepted : reject_multi_statement (codes "SELECT ';'" ++ b';' ∷ codes " \n") ≡ ok tt
unfolding reject_multi_statement scan_statement check_tail after_scan
accepted = refl

closed : quotes false false (codes "SELECT ';'") ≡ (false, false)
unfolding quotes
closed = refl

no_apostrophe : All (λ c. c ≢ b'\'') (codes "DELETE FROM t; DROP TABLE t")
no_apostrophe = ground arith

dotted : is_safe_sql_identifier (codes "app.tenant") ≡ true
unfolding is_safe_sql_identifier
dotted = refl

reject_multi_statement-ends_example : All (λ c. is_whitespace c ≡ true) (codes " \n")
reject_multi_statement-ends_example =
    reject_multi_statement-ends (codes "SELECT ';'") (codes " \n") accepted closed

reject_multi_statement-comment_apostrophe_example :
    reject_multi_statement (codes "--'" ++ 10 ∷ codes "DELETE FROM t; DROP TABLE t") ≡ ok tt
reject_multi_statement-comment_apostrophe_example =
    reject_multi_statement-comment_apostrophe (codes "DELETE FROM t; DROP TABLE t") no_apostrophe

reject_privileged_ddl-put_leads_example :
    reject_privileged_ddl (
      put_leads
        (blank (codes " ") ∷ line (codes "x") ∷ block (codes "* y *") ∷ [])
        (codes "grant all"))
    ≡ reject_privileged_ddl (codes "grant all")
unfolding NoClose
reject_privileged_ddl-put_leads_example =
    reject_privileged_ddl-put_leads
      (blank (codes " ") ∷ line (codes "x") ∷ block (codes "* y *") ∷ []) (codes "grant all")
      ((refl, tt), (((λ e. omega (arith, e)), tt), (((refl, (refl, (refl, (refl, tt)))), tt))))
