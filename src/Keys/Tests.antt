-- ===== src/Keys/Tests.antt =====
-- Keys at concrete inputs.
use silent_devops.Prelude.{
  String, ◌≡◌, refl, true, false, ◌&&◌, some, List, [], ◌∷◌, str_eq, if◌then◌else◌,
}
use silent_devops.Keys.{Texts, FileLuck, update_file, marker_in, reconcile_keys}
use silent_devops.Keys.Lines.{others_of}

abbrev texts : Texts
texts = record {
  fields = λ s.
      if str_eq s "ssh-ed25519 AAAA me"
      then "ssh-ed25519" ∷ "AAAA" ∷ "me" ∷ []
      else if str_eq s "line of s1"
      then "restrict,pty" ∷ "silent-devops:s1:9" ∷ []
      else s ∷ [];
  contains = λ line part. str_eq line "line of s1" && str_eq part "s1";
  parts = λ s. "silent-devops" ∷ "s1" ∷ "9" ∷ [];
  parse_int = λ s. some (false, 9);
  needle = λ id. id;
  key_line = λ kind body id expires. "line of s1";
}

abbrev lines : List String
lines = "line of s1" ∷ "ssh-rsa admin" ∷ []

abbrev works : FileLuck
works = record { path_given = true; read_fails = false; write_fails = false }

kept_at_eight : (reconcile_keys texts works 8 lines).1 ≡ lines
unfolding reconcile_keys update_file marker_in
kept_at_eight = refl

dropped_at_nine : (reconcile_keys texts works 9 lines).1 ≡ "ssh-rsa admin" ∷ []
unfolding reconcile_keys update_file marker_in
dropped_at_nine = refl

admin_stays : others_of texts "s1" lines ≡ "ssh-rsa admin" ∷ []
admin_stays = refl
