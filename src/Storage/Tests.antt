-- ===== src/Storage/Tests.antt =====
-- Names that are stored, and the theorem at a concrete input.
use ccreport.Prelude.{◌≡◌, refl}
use ccreport.Prelude.Texts.{Text, codes, strip, lstrip, rstrip, push_unless_blank, is_space}
use ccreport.Storage.{
  is_safe, dash_runs, lstrip_dashes, push_unless_dash, rstrip_dashes, split_slash, push_char,
  path_parts, last_part, path_name, from_last_dot, suffix_of_name, path_suffix, slash_of_backslash,
  safe_of_parts, safe_filename,
}
use ccreport.Storage.Safe.{IsStorable, safe_filename-IsStorable}

program : Unit {0}
unfolding strip lstrip rstrip push_unless_blank is_space is_safe dash_runs lstrip_dashes
    push_unless_dash rstrip_dashes split_slash push_char path_parts last_part path_name
    from_last_dot suffix_of_name path_suffix slash_of_backslash safe_of_parts safe_filename
program = tt

abbrev same : Text → Text
same s = s

stays_inside : safe_filename same (codes "../../etc/passwd") ≡ codes "passwd"
unfolding program
stays_inside = refl

replaces_runs : safe_filename same (codes " C:\\x\\my  receipt (1).PDF ") ≡ codes "my-receipt-1.PDF"
unfolding program
replaces_runs = refl

names_nothing : safe_filename same (codes "..") ≡ codes "attachment"
unfolding program
names_nothing = refl

safe_filename-IsStorable_example : IsStorable (safe_filename same (codes "..\\..\\x y.pdf"))
safe_filename-IsStorable_example = safe_filename-IsStorable same (codes "..\\..\\x y.pdf")
