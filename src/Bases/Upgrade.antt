-- ===== src/Bases/Upgrade.antt =====
-- `classify`, `proposed_reference`, `parse_bases` and `rewrite`: which base images a Dockerfile
-- declares, and the same file with newer ones. A file is its lines, each with the characters that
-- end it.
pub mod Settled
pub mod Untouched
use Prim.Native.Nat.{ℕ, suc, ◌+◌}
use docker_ls.Prelude.{
  List, [], ◌∷◌, ◌++◌, Bool, true, false, ◌&&◌, ◌||◌, not, Option, none, some, ◌==◌, is_empty,
  if◌then◌else◌,
}
use docker_ls.Prelude.Text.{Text, codes, text_eq, upper}
use docker_ls.Bases.Reference.{has_char, after_first, Reference, split_reference}
use docker_ls.Bases.Lines.{Words, words_of, FromLine, from_match, with_base}
use docker_ls.Bases.Variables.{ArgLine, arg_match, Args, expand, variable_name}

pub data BaseStatus : Type 0 where
  pinned_current pinned_stale unpinned unresolved : BaseStatus

-- `needs_action`
abbrev pub needs_action : BaseStatus → Bool
needs_action pinned_stale = true
needs_action unpinned = true
needs_action s = false

pub record DeclaredBase : Type 0 where
  pub line : ℕ
  pub raw : Text
  pub name : Text
  pub tag : Text
  pub digest : Text
  pub stage : Text
  pub templated : Bool
  pub digest_arg : Text
  pub digest_arg_line : ℕ

-- `is_pinned`
abbrev pub is_pinned : DeclaredBase → Bool
is_pinned b = not (is_empty b.digest)

pub record BaseFinding : Type 0 where
  pub base : DeclaredBase
  pub status : BaseStatus
  pub current_digest : Text

-- `classify`
unfoldable pub classify_base : DeclaredBase → Text → BaseFinding
classify_base b current =
    if is_empty current
    then record { base = b; status = unresolved; current_digest = [] }
    else if not (is_pinned b)
    then record { base = b; status = unpinned; current_digest = current }
    else record {
      base = b;
      status = if text_eq b.digest current then pinned_current else pinned_stale;
      current_digest = current;
    }

abbrev pub is_current : BaseStatus → Bool
is_current pinned_current = true
is_current s = false

-- `self.base.tag or "latest"`
abbrev pub tag_or_latest : Text → Text
tag_or_latest tag = if is_empty tag then codes "latest" else tag

-- `proposed_reference`
unfoldable pub proposed_reference : BaseFinding → Text
proposed_reference f =
    if is_empty f.current_digest
    then []
    else if f.base.templated && f.base.digest_arg_line == 0
    then []
    else if is_current f.status
    then []
    else f.base.name ++ (b':' ∷ (tag_or_latest f.base.tag ++ (b'@' ∷ f.current_digest)))

-- What `_arg_defaults` gives: the values, and the line of each
abbrev pub ArgLines : Type 0
ArgLines = List (Text × ℕ)

unfoldable pub arg_defaults : ℕ → List Text → Args × ArgLines
arg_defaults number [] = ([], [])
arg_defaults number (line ∷ lines) =
    let (values, numbers) = arg_defaults (suc number) lines in
    elim (arg_match line) [
      | none ↦ (values, numbers)
      | some m ↦ ((m.name, m.value) ∷ values, (m.name, number) ∷ numbers)
    ]

-- `arg_lines.get(digest_arg, 0)`, where the last line of a name counts
unfoldable pub arg_line_of : ArgLines → Text → ℕ
arg_line_of [] name = 0
arg_line_of ((n, number) ∷ numbers) name =
    let later = arg_line_of numbers name in
    if later == 0 then if text_eq n name then number else 0 else later

-- The stage that the words behind a reference name
abbrev stage_words : Words → Text
stage_words ((w, s) ∷ (stage, u) ∷ words) = if text_eq (upper w) (codes "AS") then stage else []
stage_words words = []

abbrev stage_of : Words → Text
stage_of [] = []
stage_of ((w, s) ∷ words) = if is_empty w then stage_words words else stage_words ((w, s) ∷ words)

-- The base of one `FROM` line
unfoldable pub declared_base : Args → ArgLines → ℕ → FromLine → DeclaredBase
declared_base args numbers number m =
    let parts = split_reference (expand args m.reference) in
    let arg = variable_name (after_first b'@' m.reference) in
    record {
      line = number;
      raw = m.reference;
      name = parts.name;
      tag = parts.tag;
      digest = parts.digest;
      stage = stage_of (words_of m.suffix);
      templated = has_char b'$' m.reference;
      digest_arg = arg;
      digest_arg_line = arg_line_of numbers arg;
    }

unfoldable pub bases_from : Args → ArgLines → ℕ → List Text → List DeclaredBase
bases_from args numbers number [] = []
bases_from args numbers number (line ∷ lines) =
    let rest = bases_from args numbers (suc number) lines in
    elim (from_match line) [ none ↦ rest | some m ↦ declared_base args numbers number m ∷ rest ]

-- `parse_bases`
unfoldable pub parse_bases : List Text → List DeclaredBase
parse_bases lines = let (args, numbers) = arg_defaults 1 lines in bases_from args numbers 1 lines

-- What `rewrite` is to write on a line: a reference after `FROM`, or a digest after `ARG`
abbrev pub Edits : Type 0
Edits = List (ℕ × Text)

-- `edits.get(number)`: what was put last
unfoldable pub edit_at : Edits → ℕ → Option Text
edit_at [] number = none
edit_at ((n, t) ∷ edits) number = elim (edit_at edits number) [
  | some later ↦ some later
  | none ↦ if n == number then some t else none
]

abbrev pub proposes : BaseFinding → Bool
proposes f = not (is_empty (proposed_reference f))

unfoldable pub from_edits : List BaseFinding → Edits
from_edits [] = []
from_edits (f ∷ fs) =
    let rest = from_edits fs in
    if proposes f && f.base.digest_arg_line == 0
    then (f.base.line, proposed_reference f) ∷ rest
    else rest

unfoldable pub arg_edits : List BaseFinding → Edits
arg_edits [] = []
arg_edits (f ∷ fs) =
    let rest = arg_edits fs in
    if proposes f && not (f.base.digest_arg_line == 0)
    then (f.base.digest_arg_line, f.current_digest) ∷ rest
    else rest

-- One turn of the loop of `rewrite`: the line, and whether an edit was applied
abbrev with_from : Text → Text → Option FromLine → Text × ℕ
with_from line new none = (line, 0)
with_from line new (some m) = (with_base new m, 1)

abbrev with_arg : Text → Text → Option ArgLine → Text × ℕ
with_arg line digest none = (line, 0)
with_arg line digest (some m) = (m.prefix ++ (digest ++ m.tail), 1)

abbrev edited_arg : Text → Option Text → Text × ℕ
edited_arg line none = (line, 0)
edited_arg line (some digest) = with_arg line digest (arg_match line)

abbrev edited : Text → Option Text → Option Text → Text × ℕ
edited line none arg = edited_arg line arg
edited line (some new) arg = with_from line new (from_match line)

unfoldable pub rewrite_line : Edits → Edits → ℕ → Text → Text × ℕ
rewrite_line froms args number line = edited line (edit_at froms number) (edit_at args number)

unfoldable pub rewrite_lines : Edits → Edits → ℕ → List (Text × Text) → List (Text × Text) × ℕ
rewrite_lines froms args number [] = ([], 0)
rewrite_lines froms args number ((line, ending) ∷ lines) =
    let (first, applied) = rewrite_line froms args number line in
    let (rest, more) = rewrite_lines froms args (suc number) lines in
    ((first, ending) ∷ rest, applied + more)

-- `rewrite`
unfoldable pub rewrite_bases : List (Text × Text) → List BaseFinding → List (Text × Text) × ℕ
rewrite_bases lines findings =
    if is_empty (from_edits findings) && is_empty (arg_edits findings)
    then (lines, 0)
    else rewrite_lines (from_edits findings) (arg_edits findings) 1 lines
