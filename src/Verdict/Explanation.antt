-- ===== src/Verdict/Explanation.antt =====
-- `_deduplicate` of dockerls/application/services/verdict.py, which both explanations end with.
pub mod Laws
use docker_ls.Prelude.{List, [], ◌∷◌, Bool, not, ◌&&◌, is_empty, if◌then◌else◌}
use docker_ls.Prelude.Text.{Text, contains}

-- The loop, from the reasons that were seen
unfoldable pub unseen : List Text → List Text → List Text
unseen seen [] = []
unseen seen (item ∷ items) =
    let first = unseen (item ∷ seen) items in
    let repeated = unseen seen items in
    if not (is_empty item) && not (contains seen item) then item ∷ first else repeated

-- `_deduplicate`
unfoldable pub deduplicate : List Text → List Text
deduplicate items = unseen [] items
