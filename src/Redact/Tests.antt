-- ===== src/Redact/Tests.antt =====
-- src/redact.rs on the messages of its tests, with a library that knows one URL.
use mcpg_plugin_backend_sql.Common.{
  ◌≡◌, refl, Bool, true, false, none, some, Text, codes, text_eq, if◌then◌else◌,
}
use mcpg_plugin_backend_sql.Redact.{
  UrlLibrary, mask, is_punct, in_front, split_trailing_punct, flush, scan_words, split_whitespace,
  join, replaced, with_password, redact_parsed, redact_password, put_back, redact_token,
  redact_in_text,
}

abbrev plain : Text
plain = codes "postgres://u:hunter2@h/d"

abbrev masked_text : Text
masked_text = codes "postgres://u:***@h/d"

-- The URL is its password.
abbrev one_url : UrlLibrary
one_url = record {
  Url = Bool;
  parse = λ s.
      if text_eq s plain then some false else if text_eq s masked_text then some true else none;
  password = λ masked. some (if masked then mask else codes "hunter2");
  set_password = λ p u. if text_eq p mask then some true else none;
  to_text = λ masked. if masked then masked_text else plain;
}

replaces_in_text :
    redact_in_text one_url (codes "cannot reach postgres://u:hunter2@h/d, retrying.")
    ≡ codes "cannot reach postgres://u:***@h/d, retrying."
unfolding redact_in_text redact_token redact_password redact_parsed with_password replaced put_back
    split_whitespace scan_words flush join split_trailing_punct in_front is_punct text_eq
replaces_in_text = refl

-- A bracket in front of a URL hides it.
bracket_hides :
    redact_in_text one_url (codes "(postgres://u:hunter2@h/d)") ≡ codes "(postgres://u:hunter2@h/d)"
unfolding redact_in_text redact_token redact_password redact_parsed with_password replaced put_back
    split_whitespace scan_words flush join split_trailing_punct in_front is_punct text_eq
bracket_hides = refl
