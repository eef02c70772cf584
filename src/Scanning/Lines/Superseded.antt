-- ===== src/Scanning/Lines/Superseded.antt =====
-- The tag that a superseded one is said to be measured by.
use mathlib.Core.Path.{subst}
use docker_ls.Prelude.{
  ◌≡◌, ◌⊎◌, refl, sym, ap, inl, inr, List, [], ◌∷◌, true, false, Option, none, some, arith,
}
use docker_ls.Prelude.{In, Bool-cases, Option-cases}
use docker_ls.Scanning.Versions.{version_leb, version_ltb}
use docker_ls.Scanning.Criteria.{Candidate, reference}
use docker_ls.Scanning.Lines.{
  DeferredTag, superseded, Line, same_line, line_of, tag_version, Newest, put_newest, newest_from,
  is_winner, newest_in, superseded_from, superseded_tags,
}
use docker_ls.Scanning.Lines.Winners.{
  version_leb_self, version_leb_total, version_leb_trans, same_line_iff, kept_one, newest_in-put,
}

-- No tag of the line has a version above the one that the line keeps.
Outdone : Candidate → Option Candidate → Type 0
Outdone c o = (w : Candidate) × (o ≡ some w) × (version_leb (tag_version c) (tag_version w) ≡ true)

same_line_self : (line : Line) → same_line line line ≡ true
same_line_self line = (same_line_iff line line).1 refl

kept_one-added : (o : Option Candidate) (c : Candidate) → Outdone c (some (kept_one o c))
unfolding Outdone
kept_one-added none c = (c, refl, version_leb_self (tag_version c))
kept_one-added (some w) c = elim (Bool-cases (version_ltb (tag_version w) (tag_version c))) [
  | inl e ↦ rw e (c, refl, version_leb_self (tag_version c))
  | inr e ↦ rw e (w, refl, ground (arith, e))
]

kept_one-kept :
    (d : Candidate) (o : Option Candidate) (c : Candidate)
    → Outdone d o
    → Outdone d (some (kept_one o c))
unfolding Outdone
kept_one-kept d none c (w, e, h) = cc
kept_one-kept d (some v) c (w, e, h) =
    elim (Bool-cases (version_ltb (tag_version v) (tag_version c))) [
      | inl f ↦ rw f (
        c,
        refl,
        version_leb_trans (tag_version d) (tag_version v) (tag_version c)
            (let q : v ≡ w = cc in rw q h)
            (ground (arith, f, version_leb_total (tag_version v) (tag_version c))),
      )
      | inr f ↦ rw f (w, e, h)
    ]

put-added :
    (line : Line) (c : Candidate) (newest : Newest)
    → Outdone c (newest_in (put_newest line c newest) line)
put-added line c newest =
    rw (newest_in-put line line c newest)
      (rw (same_line_self line) (kept_one-added (newest_in newest line) c))

put-kept :
    (d : Candidate) (line m : Line) (c : Candidate) (newest : Newest)
    → Outdone d (newest_in newest m)
    → Outdone d (newest_in (put_newest line c newest) m)
put-kept d line m c newest h =
    rw (newest_in-put line m c newest) (elim (Bool-cases (same_line line m)) [
      | inl e ↦ rw e (kept_one-kept d (newest_in newest line) c (rw ((same_line_iff line m).0 e) h))
      | inr e ↦ rw e h
    ])

newest_from_end : (newest : Newest) → newest_from newest [] ≡ newest
unfolding newest_from
newest_from_end newest = refl

newest_from-none :
    (c : Candidate) (newest : Newest) (cs : List Candidate)
    → line_of c ≡ none
    → newest_from newest (c ∷ cs) ≡ newest_from newest cs
unfolding newest_from
newest_from-none c newest cs e = rw (e, newest_from) refl

newest_from-some :
    (c : Candidate) (line : Line) (newest : Newest) (cs : List Candidate)
    → line_of c ≡ some line
    → newest_from newest (c ∷ cs) ≡ newest_from (put_newest line c newest) cs
unfolding newest_from
newest_from-some c line newest cs e = rw (e, newest_from) refl

newest_from-kept :
    (d : Candidate) (m : Line) (newest : Newest) (cs : List Candidate)
    → Outdone d (newest_in newest m)
    → Outdone d (newest_in (newest_from newest cs) m)
newest_from-kept d m newest [] h = rw (newest_from_end newest) h
newest_from-kept d m newest (c ∷ cs) h = elim (Option-cases (line_of c)) [
  | inl e ↦ rw (newest_from-none c newest cs e) (newest_from-kept d m newest cs h)
  | inr (line, e) ↦
      rw (newest_from-some c line newest cs e)
        (newest_from-kept d m (put_newest line c newest) cs (put-kept d line m c newest h))
]

newest_from-added :
    (d : Candidate) (m : Line) (newest : Newest) (cs : List Candidate)
    → In d cs
    → line_of d ≡ some m
    → Outdone d (newest_in (newest_from newest cs) m)
newest_from-added d m newest [] h k = absurd h
newest_from-added d m newest (c ∷ cs) (inl s) k = rw (sym s) (
    rw (newest_from-some d m newest cs k)
      (newest_from-kept d m (put_newest m d newest) cs (put-added m d newest)))
newest_from-added d m newest (c ∷ cs) (inr h) k = elim (Option-cases (line_of c)) [
  | inl e ↦ rw (newest_from-none c newest cs e) (newest_from-added d m newest cs h k)
  | inr (line, e) ↦
      rw (newest_from-some c line newest cs e)
        (newest_from-added d m (put_newest line c newest) cs h k)
]

-- Every tag that a line keeps is one of those of the line that the loop has seen.
kept_one-origin :
    (o : Option Candidate) (c w : Candidate) → some (kept_one o c) ≡ some w → (c ≡ w) ⊎ (o ≡ some w)
kept_one-origin none c w h = inl (cc)
kept_one-origin (some v) c w h = ground (arith, h)

put-origin :
    (line m : Line) (c w : Candidate) (newest : Newest)
    → newest_in (put_newest line c newest) m ≡ some w
    → ((c ≡ w) × (line ≡ m)) ⊎ (newest_in newest m ≡ some w)
put-origin line m c w newest h = elim (Bool-cases (same_line line m)) [
  | inr e ↦ inr (ground (arith, h, e, newest_in-put line m c newest))
  | inl e ↦
      elim (kept_one-origin (newest_in newest line) c w
        (ground (arith, h, e, newest_in-put line m c newest))) [
          | inl q ↦ inl (q, (same_line_iff line m).0 e)
          | inr q ↦ inr (rw (sym ((same_line_iff line m).0 e)) q)
        ]
]

newest_from-origin :
    (w : Candidate) (m : Line) (newest : Newest) (cs : List Candidate)
    → newest_in (newest_from newest cs) m ≡ some w
    → (In w cs × (line_of w ≡ some m)) ⊎ (newest_in newest m ≡ some w)
newest_from-origin w m newest [] h = inr (rw (sym (newest_from_end newest)) h)
newest_from-origin w m newest (c ∷ cs) h = elim (Option-cases (line_of c)) [
  | inl e ↦ elim (newest_from-origin w m newest cs (rw (sym (newest_from-none c newest cs e)) h)) [
    | inl (i, l) ↦ inl (inr i, l)
    | inr k ↦ inr k
  ]
  | inr (line, e) ↦
      elim (newest_from-origin w m (put_newest line c newest) cs
        (rw (sym (newest_from-some c line newest cs e)) h)) [
          | inl (i, l) ↦ inl (inr i, l)
          | inr k ↦ elim (put-origin line m c w newest k) [
            | inl (q, l) ↦ inl (inl (sym q), rw (sym q) (rw e (ap some l)))
            | inr j ↦ inr j
          ]
        ]
]

-- What a superseded item says of the tag that it names.
pub StoodFor : List Candidate → DeferredTag → Type 0
StoodFor tags d =
    (c : Candidate) × (w : Candidate) × In c tags
    × In w tags
    × (d.reference ≡ reference c)
    × (d.instead ≡ some w)
    × (line_of w ≡ line_of c)
    × (version_leb (tag_version c) (tag_version w) ≡ true)

item-StoodFor :
    (tags : List Candidate) (c : Candidate) (line : Line)
    → In c tags
    → line_of c ≡ some line
    → StoodFor tags (record {
      reference = reference c;
      reason = superseded;
      instead = newest_in (newest_from [] tags) line;
    })
unfolding StoodFor Outdone
item-StoodFor tags c line i e =
    let (w, q, h) = newest_from-added c line [] tags i e in
    elim (newest_from-origin w line [] tags q) [
      | inl (j, l) ↦ (c, w, i, j, refl, q, rw (l, e) refl, h)
      | inr k ↦ absurd (cc)
    ]

superseded_from-none :
    (newest : Newest) (c : Candidate) (cs : List Candidate)
    → line_of c ≡ none
    → superseded_from newest (c ∷ cs) ≡ superseded_from newest cs
unfolding superseded_from
superseded_from-none newest c cs e = rw (e, superseded_from) refl

superseded_from-winner :
    (newest : Newest) (c : Candidate) (line : Line) (cs : List Candidate)
    → line_of c ≡ some line
    → is_winner newest c ≡ true
    → superseded_from newest (c ∷ cs) ≡ superseded_from newest cs
unfolding superseded_from
superseded_from-winner newest c line cs e f = rw (e, superseded_from) (rw f refl)

superseded_from-loser :
    (newest : Newest) (c : Candidate) (line : Line) (cs : List Candidate)
    → line_of c ≡ some line
    → is_winner newest c ≡ false
    → superseded_from newest (c ∷ cs)
      ≡ record { reference = reference c; reason = superseded; instead = newest_in newest line }
        ∷ superseded_from newest cs
unfolding superseded_from
superseded_from-loser newest c line cs e f = rw (e, superseded_from) (rw f refl)

superseded_from-StoodFor :
    (tags cs : List Candidate) (d : DeferredTag)
    → ((c : Candidate) → In c cs → In c tags)
    → In d (superseded_from (newest_from [] tags) cs)
    → StoodFor tags d
unfolding superseded_from
superseded_from-StoodFor tags [] d sub m = absurd m
superseded_from-StoodFor tags (c ∷ cs) d sub m =
    let ih = superseded_from-StoodFor tags cs d (λ a i. sub a (inr i)) in
    let item_or : (line : Line)
        → line_of c ≡ some line
        → In d (
            record {
              reference = reference c;
              reason = superseded;
              instead = newest_in (newest_from [] tags) line;
            }
            ∷ superseded_from (newest_from [] tags) cs)
        → StoodFor tags d =
      λ line e n. elim n [
        | inl q ↦ rw q (item-StoodFor tags c line (sub c (inl refl)) e)
        | inr n ↦ ih n
      ] in
    elim (Option-cases (line_of c)) [
      | inl e ↦ ih (rw (sym (superseded_from-none (newest_from [] tags) c cs e)) m)
      | inr (line, e) ↦ elim (Bool-cases (is_winner (newest_from [] tags) c)) [
        | inl f ↦ ih (rw (sym (superseded_from-winner (newest_from [] tags) c line cs e f)) m)
        | inr f ↦
            item_or line e
              (subst (In d) (superseded_from-loser (newest_from [] tags) c line cs e f) m)
      ]
    ]

-- Every item of `_superseded` names a tag of the listing: the item is for a tag c of the listing,
-- the tag w that its detail names is in the listing too and on the same line as c (variant, width
-- and first component of the version), and the version of w is no lower than that of c.
pub superseded_tags-StoodFor :
    (tags : List Candidate) (d : DeferredTag) → In d (superseded_tags tags) → StoodFor tags d
unfolding superseded_tags
superseded_tags-StoodFor tags d m = superseded_from-StoodFor tags tags d (λ c i. i) m
