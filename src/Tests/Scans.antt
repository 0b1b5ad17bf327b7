-- ===== src/Tests/Scans.antt =====
-- The scanner of the gate (store/gate.py) on the sample platform.
use knokeep.Prelude.{Option, lookup, Text, List, utf8_encode, text_eq, insert, Bytes}
use knokeep.Gate.Patterns.{all_prefix_patterns, pem_re, cred_uri_re, token_re}
use knokeep.Gate.Regex.{
  matches, search_re, run, run_class, find_all, match_start, matched_text, group_text,
}
use knokeep.Gate.Scan.{
  secret_scan, all_labels, dedupe, view_labels, views_labels, scan_views, normalize_text,
  scan_normalized_text, scan_assignments, contains_label, value_is_credential_like,
  looks_like_plain_hex,
}
use knokeep.Gate.Platform.{utf8_decode}
use knokeep.Gate.Assignments.{
  assign_re, bearer_re, placeholder_re, env_ref_re, getenv_re, getenv_literal_re,
}
use mathlib.Core.List.{flat_map}
use knokeep.Tests.Samples.{platform}

-- One name for all that a run of the scanner goes through.
unfoldable pub scan : Bytes → Option (List Text)
unfolding secret_scan all_labels dedupe view_labels views_labels all_prefix_patterns pem_re
    cred_uri_re token_re matches search_re run run_class find_all scan_views utf8_decode
    normalize_text utf8_encode text_eq scan_normalized_text scan_assignments bearer_re assign_re
    flat_map matched_text group_text contains_label value_is_credential_like placeholder_re
    env_ref_re getenv_re getenv_literal_re match_start looks_like_plain_hex lookup insert
scan = secret_scan platform
