-- ===== src/Runs/Diff/Whole.antt =====
-- The entries of a whole comparison.
use docker_ls.Prelude.{◌≡◌, List, some, In}
use docker_ls.Prelude.Text.{Text}
use docker_ls.Prelude.Dict.{Dict, get_item}
use docker_ls.Runs.Json.{Value, Fields}
use docker_ls.Runs.Diff.{ImageDiff, reference_of}
use docker_ls.Runs.Diff.Laws.{Compared}

module _ (printed : Value → Text) where
  -- What stands under a reference is an analysis of the run with that reference.
  record Filed (listed : List Fields) (found : Dict Fields) : Type 0 where
    entries :
        (key : Text) (old : Fields)
        → get_item key found ≡ some old
        → In old listed × (reference_of printed old ≡ key)

  -- The two analyses that an entry compares
  pub record Pair (previous current : List Fields) (e : ImageDiff) : Type 0 where
    pub old : Fields
    pub new : Fields
    pub in_previous : In old previous
    pub in_current : In new current
    pub one_reference : reference_of printed old ≡ reference_of printed new
    pub judged_so : Compared printed old new e
