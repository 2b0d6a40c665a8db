-- ===== src/Revision/RoundTrip.antt =====
-- An entity tag that the API handed out is read back as the revision that it was made from.
use titra.Common.{
  ℕ, ◌≤◌, ◌≡◌, refl, ap, ◌≢◌, sym, true, false, Option, none, some, [], ◌∷◌, ◌++◌, arith, Text,
  codes, ==_self, ℕ_eq, subst, Bool-cases, inl, inr, leb, Stored, missing, held, junk, value,
  beq_list,
}
use mathlib.Core.Path.{◌≡⟨◌⟩◌, ◌∎}
use mathlib.Core.Option.{some-injective}
use mathlib.Core.List.{reverse, reverse-append, reverse-reverse, append_assoc}
use titra.Revision.{
  Kind, project, project_task, task_suggestion, timer, kind_name, tag_prefix, legacy_tag, etag_of,
  Resource, resource_revision_etag, parse_resource_revision_etag, matches_resource_revision,
  revision_field_for, trim, trim_left, strip_prefix, strip_quote, match_revision, max_safe,
  is_space, revision_is,
}
use titra.Revision.Decimal.{decimal, is_canonical, decimal-canonical, read-decimal}

strip_prefix-append : (p s : Text) → strip_prefix p (p ++ s) ≡ some s
unfolding strip_prefix
strip_prefix-append [] s = refl
strip_prefix-append (c ∷ p) s = ground (arith, strip_prefix-append p s)

strip_quote-append : (s : Text) → strip_quote (s ++ codes "\"") ≡ some s
unfolding strip_quote
strip_quote-append [] = refl
strip_quote-append (c ∷ []) = refl
strip_quote-append (c ∷ d ∷ s) = ground (arith, strip_quote-append (d ∷ s))

-- A text between two quotation marks has no white space to trim.
pub trim_quoted : (s : Text) → trim (b'"' ∷ (s ++ codes "\"")) ≡ b'"' ∷ (s ++ codes "\"")
unfolding trim trim_left is_space
trim_quoted s =
    reverse (trim_left (reverse (b'"' ∷ (s ++ codes "\""))))
    ≡⟨ ap (λ t. reverse (trim_left t)) (reverse-append (b'"' ∷ s) (codes "\"")) ⟩
      reverse (b'"' ∷ reverse (b'"' ∷ s))
    ≡⟨ ap reverse (sym (reverse-append (b'"' ∷ s) (codes "\""))) ⟩
      reverse (reverse (b'"' ∷ (s ++ codes "\"")))
    ≡⟨ reverse-reverse _ ⟩ b'"' ∷ (s ++ codes "\"") ∎

pub match_revision-decimal :
    (prefix : Text) (n : ℕ)
    → n ≤ max_safe
    → match_revision prefix (prefix ++ (decimal n ++ codes "\"")) ≡ some n
unfolding match_revision
match_revision-decimal prefix n h =
    rw
      (
        strip_prefix-append prefix,
        strip_quote-append (decimal n),
        decimal-canonical n,
        read-decimal n,
      )
      (ground arith)

pub beq_list-prefix : (p s t : Text) → beq_list (p ++ s) (p ++ t) ≡ beq_list s t
unfolding beq_list
beq_list-prefix [] s t = refl
beq_list-prefix (c ∷ p) s t = rw (==_self c) (beq_list-prefix p s t)

pub digits_not_legacy :
    (s : Text) → is_canonical s ≡ true → beq_list (s ++ codes "\"") (codes "legacy\"") ≡ false
unfolding beq_list is_canonical
digits_not_legacy [] h = cc
digits_not_legacy (c ∷ []) h = ground arith
digits_not_legacy (c ∷ d ∷ s) h = ground arith

trim_tag :
    (kind : Kind) (s : Text)
    → trim (tag_prefix kind ++ (s ++ codes "\"")) ≡ tag_prefix kind ++ (s ++ codes "\"")
trim_tag kind s =
    rw (← append_assoc (tag_prefix kind) s (codes "\""))
      (trim_quoted (codes "titra-" ++ kind_name kind ++ codes "-revision-" ++ s))

parse_legacy :
    (kind : Kind) → parse_resource_revision_etag kind (held (legacy_tag kind)) ≡ some none
unfolding parse_resource_revision_etag beq_list
parse_legacy project = refl
parse_legacy _ = refl

parse_revision :
    (kind : Kind) (n : ℕ)
    → n ≤ max_safe
    → parse_resource_revision_etag kind (held (tag_prefix kind ++ (decimal n ++ codes "\"")))
      ≡ some (some n)
unfolding parse_resource_revision_etag
parse_revision kind n h = rw (
  trim_tag kind (decimal n),
  beq_list-prefix (tag_prefix kind) (decimal n ++ codes "\"") (codes "legacy\""),
  digits_not_legacy (decimal n) (decimal-canonical n),
  match_revision-decimal (tag_prefix kind) n h,
)

-- The tag of a document with a revision, and that of a document without one, are read back as the
-- revision and as `null`.
pub parse-etag_of :
    (kind : Kind) (field : Stored ℕ) {tag : Text}
    → etag_of kind field ≡ some tag
    → parse_resource_revision_etag kind (held tag) ≡ some (value field)
unfolding etag_of
parse-etag_of kind missing h =
    subst (λ t. parse_resource_revision_etag kind (held t) ≡ some none) (some-injective _ _ h)
      (parse_legacy kind)
parse-etag_of kind (held n) h = elim (Bool-cases (leb n max_safe)) [
  | inl safe ↦
      subst (λ t. parse_resource_revision_etag kind (held t) ≡ some (some n))
        (some-injective _ _ (rw safe at h)) (parse_revision kind n (ground arith))
  | inr large ↦ cc (rw large at h)
]
parse-etag_of kind (junk m) h = cc

-- Reading back the entity tag that the server made for a document gives a revision that the
-- document matches: a client that sends the tag of an unchanged document passes `If-Match`.
pub matches-etag :
    (kind : Kind) (resource : Resource) {tag : Text}
    → resource_revision_etag kind (some resource) ≡ some tag
    → (expected : Option ℕ) × (parse_resource_revision_etag kind (held tag) ≡ some expected)
      × (matches_resource_revision kind (some resource) expected ≡ true)
unfolding resource_revision_etag matches_resource_revision
matches-etag kind resource {tag} h =
    let field = resource (revision_field_for kind) in
    (value field, parse-etag_of kind field h, accepted field h)
  where
    accepted : (f : Stored ℕ) → etag_of kind f ≡ some tag → revision_is f (value f) ≡ true
    accepted missing e = refl
    accepted (held n) e = ground arith
    accepted (junk m) e = cc

apart :
    (kind other : Kind) (s : Text)
    → kind ≢ other
    → (beq_list (tag_prefix kind ++ s) (legacy_tag other) ≡ false)
      × (strip_prefix (tag_prefix other) (tag_prefix kind ++ s) ≡ none)
unfolding beq_list strip_prefix
apart project project s ne = absurd (ne refl)
apart project_task project_task s ne = absurd (ne refl)
apart task_suggestion task_suggestion s ne = absurd (ne refl)
apart timer timer s ne = absurd (ne refl)
apart _ _ s ne = (refl, refl)

parse_other :
    (kind other : Kind) (s : Text)
    → kind ≢ other
    → parse_resource_revision_etag other (held (tag_prefix kind ++ (s ++ codes "\""))) ≡ none
unfolding parse_resource_revision_etag match_revision
parse_other kind other s ne = rw (
  trim_tag kind s,
  (apart kind other (s ++ codes "\"") ne).0,
  (apart kind other (s ++ codes "\"") ne).1,
)

-- A tag is bound to its kind: an entity tag of one kind of resource is refused for another.
pub parse_other_kind :
    (kind other : Kind) (field : Stored ℕ) {tag : Text}
    → kind ≢ other
    → etag_of kind field ≡ some tag
    → parse_resource_revision_etag other (held tag) ≡ none
unfolding etag_of
parse_other_kind kind other missing ne h =
    subst (λ t. parse_resource_revision_etag other (held t) ≡ none) (some-injective _ _ h)
      (parse_other kind other (codes "legacy") ne)
parse_other_kind kind other (held n) ne h = elim (Bool-cases (leb n max_safe)) [
  | inl safe ↦
      subst (λ t. parse_resource_revision_etag other (held t) ≡ none)
        (some-injective _ _ (rw safe at h)) (parse_other kind other (decimal n) ne)
  | inr large ↦ cc (rw large at h)
]
parse_other_kind kind other (junk m) ne h = cc
