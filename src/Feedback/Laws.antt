-- ===== src/Feedback/Laws.antt =====
-- The laws of the conditions of a record (findComputeInstanceCondition and its likes in
-- internal/controller): a condition that says what is to be written is not changed again.
use cloudkit_operator.Prelude.{
  ℕ, String, ◌≡◌, refl, ap, ◌∙◌, sym, ◌==◌, true, false, Bool-cases, Option, none, some, List, [],
  ◌∷◌, inl, inr, arith, eq_iff, if◌then◌else◌,
}
use cloudkit_operator.Feedback.{
  SharedStatus, unspecified, shared_true, shared_false, RecordCondition, same_shared,
  write_condition, sync_condition, fresh,
}

unfoldable pub find_condition : String → List RecordCondition → Option RecordCondition
find_condition kind [] = none
find_condition kind (c ∷ cs) = if c.type == kind then some c else find_condition kind cs

abbrev pub Says : SharedStatus → String → Option RecordCondition → Type 0
Says status message none = ⊥
Says status message (some c) = (c.status ≡ status) × (c.message ≡ message)

-- the first condition of the type has the status and the message
pub record Shows (kind : String) (status : SharedStatus) (message : String)
    (cs : List RecordCondition) : Type 0 where
  pub says : Says status message (find_condition kind cs)

pub same_shared_refl : (s : SharedStatus) → same_shared s s ≡ true
same_shared_refl unspecified = refl
same_shared_refl shared_true = refl
same_shared_refl shared_false = refl

write-Says :
    (now : ℕ) (status : SharedStatus) (message : String) (c : RecordCondition)
    → ((write_condition now status message c).type ≡ c.type)
      × Says status message (some (write_condition now status message c))
unfolding write_condition
write-Says now status message c = elim (Bool-cases (same_shared status c.status)) [
  | inl same ↦ rw same (refl, (refl, refl))
  | inr new ↦ rw new (refl, (refl, refl))
]

find-sync_self :
    (now : ℕ) (kind : String) (status : SharedStatus) (message : String) (cs : List RecordCondition)
    → Says status message (find_condition kind (sync_condition now kind status message cs))
unfolding find_condition sync_condition
find-sync_self now kind status message [] =
    let (type, says) = write-Says now status message (fresh kind) in
    rw ((eq_iff (write_condition now status message (fresh kind)).type kind).1 type) says
find-sync_self now kind status message (c ∷ cs) = elim (Bool-cases (c.type == kind)) [
  | inl same ↦
      let (type, says) = write-Says now status message c in
      rw
        (
          same,
          (eq_iff (write_condition now status message c).type kind).1
              (type ∙ (eq_iff c.type kind).0 same),
        )
        says
  | inr other ↦ rw (other, other) (find-sync_self now kind status message cs)
]

pub Shows-sync_self :
    (now : ℕ) (kind : String) (status : SharedStatus) (message : String) (cs : List RecordCondition)
    → Shows kind status message (sync_condition now kind status message cs)
Shows-sync_self now kind status message cs = record {
  says = find-sync_self now kind status message cs;
}

pub find-sync_other :
    (now : ℕ) (kind other : String) (status : SharedStatus) (message : String)
    (cs : List RecordCondition)
    → (other == kind) ≡ false
    → find_condition kind (sync_condition now other status message cs) ≡ find_condition kind cs
unfolding find_condition sync_condition
find-sync_other now kind other status message [] h =
    let (type, says) = write-Says now status message (fresh other) in
    ground (
      arith,
      type,
      eq_iff (write_condition now status message (fresh other)).type kind,
      eq_iff other kind,
    )
find-sync_other now kind other status message (c ∷ cs) h = elim (Bool-cases (c.type == other)) [
  | inl same ↦
      let (type, says) = write-Says now status message c in
      rw same (
        ground (
          arith,
          type,
          eq_iff (write_condition now status message c).type kind,
          eq_iff other kind,
          eq_iff c.type other,
          eq_iff c.type kind,
        ))
  | inr differs ↦ rw differs (ground (arith, find-sync_other now kind other status message cs h))
]

pub Shows-sync_other :
    (now : ℕ) (kind other : String) (status s : SharedStatus) (message m : String)
    (cs : List RecordCondition)
    → (other == kind) ≡ false
    → Shows kind status message cs
    → Shows kind status message (sync_condition now other s m cs)
Shows-sync_other now kind other status s message m cs h shows = record {
  says = rw (find-sync_other now kind other s m cs h) shows.says;
}

write_same :
    (now : ℕ) (status : SharedStatus) (message : String) (c : RecordCondition)
    → c.status ≡ status
    → c.message ≡ message
    → write_condition now status message c ≡ c
unfolding write_condition
write_same now status message c e f =
    ap (λ s. write_condition now s message c) (sym e)
    ∙ ap (λ m. write_condition now c.status m c) (sym f)
    ∙ rw (same_shared_refl c.status) refl

sync_shown :
    (now : ℕ) (kind : String) (status : SharedStatus) (message : String) (cs : List RecordCondition)
    → Says status message (find_condition kind cs)
    → sync_condition now kind status message cs ≡ cs
unfolding find_condition sync_condition
sync_shown now kind status message [] = λ h. absurd h
sync_shown now kind status message (c ∷ cs) = elim (Bool-cases (c.type == kind)) [
  | inl same ↦ rw same (λ h. ap (λ d. d ∷ cs) (write_same now status message c h.0 h.1))
  | inr other ↦ rw other (λ h. ap (λ ds. c ∷ ds) (sync_shown now kind status message cs h))
]

-- Writing what is shown changes nothing.
pub sync_condition-idle :
    (now : ℕ) (kind : String) (status : SharedStatus) (message : String) (cs : List RecordCondition)
    → Shows kind status message cs
    → sync_condition now kind status message cs ≡ cs
sync_condition-idle now kind status message cs h = sync_shown now kind status message cs h.says
