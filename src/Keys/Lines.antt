-- ===== src/Keys/Lines.antt =====
-- What the lines of a file are after a key was installed or removed, or after a reconciliation.
use silent_devops.Prelude.{String, Bool, true, false, not, List, select}
use silent_devops.Keys.{Texts, FileLuck}

module _ (x : Texts) where
  abbrev good : FileLuck
  good = record { path_given = true; read_fails = false; write_fails = false }

  -- The line holds the mark of a session.
  abbrev pub has_mark : String → String → Bool
  has_mark id line = x.contains line (x.needle id)

  -- The lines that do not hold the mark of a session.
  abbrev pub others_of : String → List String → List String
  others_of id lines = select (λ (l : String). not (has_mark id l)) lines
