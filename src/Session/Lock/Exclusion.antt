-- ===== src/Session/Lock/Exclusion.antt =====
-- Whether two processes hold the lock of one session together.
use open_nipper.Prelude.{
  beq_refl, ℕ, ◌≡◌, refl, sym, ap, ◌∙◌, ◌≢◌, true, false, Option, none, some, nat_eq, nat_beq_iff,
  ◌==◌, arith, Bool-cases, inl, inr, if_true, if_false,
}
use open_nipper.Session.Lock.{lock_file_is_stale}
use open_nipper.Session.Lock.System.{
  Pc, idle, trying, checking, removing, holding, Held, System, move, Step, begin, take, refused,
  wait, give_up, see_stale, remove, unlock, tick, Reach, start, later,
}

-- A file that a process removes as stale does not belong to a process that holds the lock.
abbrev Spares : {s t : System} → Step s t → Type 0
Spares {s} (remove i t e) = (h : Held) → s.file ≡ some h → s.pc h.owner ≢ holding
Spares _ = Unit

abbrev pub CarefulStep : System → System → Type 0
CarefulStep s t = (st : Step s t) × Spares st

record Inv (s : System) : Type 0 where
  owned : (i : ℕ) → s.pc i ≡ holding → (t : ℕ) × (s.file ≡ some (record { owner = i; since = t }))

-- A process moves to another place than holding, and the file stays.
move_keeps : (s : System) (i : ℕ) (p : Pc) → p ≢ holding → Inv s → Inv (move s i p)
move_keeps s i p other inv = record {
  owned = λ j h. elim (Bool-cases (i == j)) [
    | inl same ↦ absurd (other (sym (if_true _ _ same) ∙ h))
    | inr different ↦ inv.owned j (sym (if_false _ _ different) ∙ h)
  ];
}

-- A process moves to another place than holding, and the file is removed, while no other process
-- holds the lock.
clear_keeps :
    (s : System) (i : ℕ) (p : Pc)
    → p ≢ holding
    → ((j : ℕ) → (i == j) ≡ false → s.pc j ≢ holding)
    → Inv (record (move s i p) { file = none })
clear_keeps s i p other free = record {
  owned = λ j h. elim (Bool-cases (i == j)) [
    | inl same ↦ absurd (other (sym (if_true _ _ same) ∙ h))
    | inr different ↦ absurd (free j different (sym (if_false _ _ different) ∙ h))
  ];
}

take_keeps :
    (s : System) (i t : ℕ)
    → s.file ≡ none
    → Inv s
    → Inv (record (move s i holding) { file = some (record { owner = i; since = t }) })
take_keeps s i t free inv = record {
  owned = λ j h. elim (Bool-cases (i == j)) [
    | inl same ↦ (t, ap (λ o. some (record { owner = o; since = t })) ((nat_beq_iff i j).0 same))
    | inr different ↦
        let (u, e) = inv.owned j (sym (if_false _ _ different) ∙ h) in absurd (cc (e, free))
  ];
}

owners_agree :
    {i j t u : ℕ} {o : Option Held}
    → o ≡ some (record { owner = i; since = t })
    → o ≡ some (record { owner = j; since = u })
    → i ≡ j
owners_agree e h = cc (e, h)

one_holder : {s : System} → Inv s → (i j : ℕ) → s.pc i ≡ holding → s.pc j ≡ holding → i ≡ j
one_holder inv i j p q = owners_agree (inv.owned i p).1 (inv.owned j q).1

unlock_frees :
    {s : System}
    → Inv s
    → (i : ℕ) → s.pc i ≡ holding
    → (j : ℕ) → (i == j) ≡ false
    → s.pc j ≢ holding
unlock_frees inv i p j different q =
    let same = one_holder inv i j p q in ground (arith, nat_beq_iff i j)

remove_frees :
    {s : System}
    → Inv s
    → ((h : Held) → s.file ≡ some h → s.pc h.owner ≢ holding)
    → (j : ℕ) → s.pc j ≢ holding
remove_frees inv spares j q =
    let (t, e) = inv.owned j q in spares (record { owner = j; since = t }) e q

Step-Inv : {s t : System} → (st : Step s t) → Spares st → Inv s → Inv t
Step-Inv {s} (begin i e) ok inv = move_keeps s i (trying s.now) (λ h. cc) inv
Step-Inv {s} (take i t e free) ok inv = take_keeps s i t free inv
Step-Inv {s} (refused i t h e taken) ok inv = move_keeps s i (checking t) (λ h. cc) inv
Step-Inv {s} (wait i t e fresh) ok inv = move_keeps s i (trying t) (λ h. cc) inv
Step-Inv {s} (give_up i t e fresh) ok inv = move_keeps s i idle (λ h. cc) inv
Step-Inv {s} (see_stale i t e stale) ok inv = move_keeps s i (removing t) (λ h. cc) inv
Step-Inv {s} (remove i t e) ok inv =
    clear_keeps s i (trying t) (λ h. cc) (λ j different. remove_frees inv ok j)
Step-Inv {s} (unlock i e) ok inv = clear_keeps s i idle (λ h. cc) (unlock_frees inv i e)
Step-Inv (tick d) ok inv = record { owned = inv.owned }

Reach-Inv : {s : System} → Reach CarefulStep s → Inv s
Reach-Inv start = record { owned = λ i h. absurd (cc) }
Reach-Inv (later r (st, ok)) = Step-Inv st ok (Reach-Inv r)

-- Of any number of processes, in any interleaving, at most one holds the lock of a session, as long
-- as no process removes, as stale, the file of a process that holds the lock.
pub mutual_exclusion :
    {s : System} → Reach CarefulStep s → (i j : ℕ) → s.pc i ≡ holding → s.pc j ≡ holding → i ≡ j
mutual_exclusion r i j p q = one_holder (Reach-Inv r) i j p q

-- Without that condition any two processes can hold the lock together, and no lock need be old: one
-- is refused and looks at the file just after the other has unlocked, takes the missing file for a
-- stale one, and removes the file of the lock that the other has taken again.
pub both_hold :
    (i j : ℕ)
    → i ≢ j
    → (s : System) × Reach Step s × (s.pc i ≡ holding) × (s.pc j ≡ holding) × (s.now ≡ 0)
unfolding lock_file_is_stale
both_hold i j different =
    let ij : (i == j) ≡ false = ground (arith, nat_beq_iff i j) in
    let ji : (j == i) ≡ false = ground (arith, nat_beq_iff j i) in
    let ii : (i == i) ≡ true = beq_refl i in
    let jj : (j == j) ≡ true = beq_refl j in
    let r2 = later (later start (begin j refl)) (take j 0 (ground arith) refl) in
    let r4 =
      later (later r2 (begin i (ground arith)))
        (refused i 0 (record { owner = j; since = 0 }) (ground arith) refl) in
    let r6 = later (later r4 (unlock j (ground arith))) (see_stale i 0 (ground arith) refl) in
    let r8 = later (later r6 (begin j (ground arith))) (take j 0 (ground arith) refl) in
    let r10 = later (later r8 (remove i 0 (ground arith))) (take i 0 (ground arith) refl) in
    (_, r10, ground arith, ground arith, refl)
