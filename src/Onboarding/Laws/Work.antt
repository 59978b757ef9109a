-- ===== src/Onboarding/Laws/Work.antt =====
-- The work that `claim_next_work` makes of a burst (tomo_core/src/tomo_core/onboarding_store.py).
use mathlib.Core.Path.{subst}
use tomo_v.Common.{
  ℕ, suc, ◌≤◌, String, true, Option, none, some, List, [], ◌∷◌, ◌++◌, ◌≡◌, refl, sym, ◌∙◌, ap,
  arith, eq_refl, ◌==◌, All, All-map, All-of_In, In, exists_where, select_where, select_where-In,
  select_where-All_of, sort_by, insert_by, sort_by-All, sort_by-All_of, insert_by-All, least_by,
  Bool-cases, Option-cases, inl, inr, ok, ok-injective, ltb, ltb→lt, ltb_false→le,
}
use tomo_v.Onboarding.Rows.{
  Db, InboxRow, TurnRow, GenerationRow, GenerationInput, GenerationWork, is_running, current_is,
}
use tomo_v.Onboarding.Store.Claim.{
  is_due, turn_before, is_waiting, waiting_rows, update_before, number_inputs, generation_for,
  claimed_tables, work_of, claim_rows, claim_turn, claim_next_work,
}
use tomo_v.Onboarding.Store.Generations.{is_generation_active}
use tomo_v.Onboarding.Laws.Linked.{at_rest}
use tomo_v.Onboarding.Sound.{Sound}
use tomo_v.Onboarding.Sound.Parts.{exists_where-last, found_by_chat}
use tomo_v.Onboarding.Sound.Arrivals.{Elsewhere}
use tomo_v.Onboarding.Sound.Claims.{
  due_turn, at_rest_if_due, claim_rows-parts, insert_generation-parts,
}
use tomo_v.Onboarding.History.{Reached}
use tomo_v.Onboarding.History.Invariant.{Reached-Sound}

-- Inputs stand in the order of their updates.
abbrev pub Ascending : List GenerationInput → Type 0
Ascending [] = Unit
Ascending (i ∷ is) = All (λ j. i.update_id ≤ j.update_id) is × Ascending is

-- Inputs are numbered from the ordinal on.
abbrev pub Numbered : ℕ → List GenerationInput → Type 0
Numbered ordinal [] = Unit
Numbered ordinal (i ∷ is) = (i.ordinal ≡ ordinal) × Numbered (suc ordinal) is

-- An input is an unanswered message of the burst.
abbrev pub IsMessageOf : Db → String → String → GenerationInput → Type 0
IsMessageOf db chat_id burst_id i =
    (r : InboxRow) × In r db.inbox
    × (is_waiting chat_id burst_id r ≡ true)
    × (i.update_id ≡ r.update_id)
    × (i.payload ≡ r.payload)

-- What the work of a burst is: its inputs are the unanswered messages of a burst that was due, all of
-- them, in the order of their updates and numbered from 1; the chat had no active generation, and now
-- has the one of the work.
pub record IsWork (db after : Db) (now : ℕ) (w : GenerationWork) : Type 0 where
  pub turn :
      (t : TurnRow) × In t db.turns
      × (is_due now t ≡ true)
      × (t.chat_id ≡ w.chat_id)
      × (t.burst_id ≡ some w.burst_id)
      × (t.revision ≡ w.revision)
  pub ascending : Ascending w.inputs
  pub numbered : Numbered 1 w.inputs
  pub messages : All (IsMessageOf db w.chat_id w.burst_id) w.inputs
  pub every :
      All
        (λ r.
          is_waiting w.chat_id w.burst_id r ≡ true
          → exists_where (λ i. i.update_id == r.update_id) w.inputs ≡ true)
        db.inbox
  pub rest : All (Elsewhere w.chat_id) db.generations
  pub active : is_generation_active w.generation_id w.revision after ≡ true

abbrev AscendingRows : List InboxRow → Type 0
AscendingRows [] = Unit
AscendingRows (r ∷ rs) = All (λ q. r.update_id ≤ q.update_id) rs × AscendingRows rs

insert-AscendingRows :
    (r : InboxRow) (l : List InboxRow)
    → AscendingRows l
    → AscendingRows (insert_by update_before r l)
unfolding insert_by update_before
insert-AscendingRows r [] a = (tt, tt)
insert-AscendingRows r (q ∷ qs) a = elim (Bool-cases (ltb q.update_id r.update_id)) [
  | inl e ↦
      let lt = ltb→lt q.update_id r.update_id e in
      rw e (
        insert_by-All update_before (λ s. q.update_id ≤ s.update_id) r qs (omega arith) a.0,
        insert-AscendingRows r qs a.1,
      )
  | inr e ↦
      let le = ltb_false→le q.update_id r.update_id e in
      rw e ((le, All-map qs (λ s more. omega arith) a.0), a)
]

sort-AscendingRows : (l : List InboxRow) → AscendingRows (sort_by update_before l)
unfolding sort_by
sort-AscendingRows [] = tt
sort-AscendingRows (r ∷ rs) =
    insert-AscendingRows r (sort_by update_before rs) (sort-AscendingRows rs)

-- What the rows have, the inputs have.
number-All :
    (P : InboxRow → Type 0) (Q : GenerationInput → Type 0) (ordinal : ℕ) (rows : List InboxRow)
    → ((r : InboxRow) (i : GenerationInput)
        → i.update_id ≡ r.update_id
        → i.payload ≡ r.payload
        → P r
        → Q i)
    → All P rows
    → All Q (number_inputs ordinal rows)
unfolding number_inputs
number-All P Q ordinal [] h a = tt
number-All P Q ordinal (r ∷ rs) h a = (h r _ refl refl a.0, number-All P Q (suc ordinal) rs h a.1)

number-Ascending :
    (ordinal : ℕ) (rows : List InboxRow)
    → AscendingRows rows
    → Ascending (number_inputs ordinal rows)
unfolding number_inputs
number-Ascending ordinal [] a = tt
number-Ascending ordinal (r ∷ rs) a = (
  number-All (λ q. r.update_id ≤ q.update_id) (λ j. r.update_id ≤ j.update_id) (suc ordinal) rs
      (λ q j same payload le. rw same le) a.0,
  number-Ascending (suc ordinal) rs a.1,
)

number-Numbered :
    (ordinal : ℕ) (rows : List InboxRow) → Numbered ordinal (number_inputs ordinal rows)
unfolding number_inputs
number-Numbered ordinal [] = tt
number-Numbered ordinal (r ∷ rs) = (refl, number-Numbered (suc ordinal) rs)

number-has :
    (ordinal : ℕ) (rows : List InboxRow)
    → All
        (λ r. exists_where (λ i. i.update_id == r.update_id) (number_inputs ordinal rows) ≡ true)
        rows
unfolding number_inputs exists_where
number-has ordinal [] = tt
number-has ordinal (r ∷ rs) = (
  ground arith,
  All-map rs
      (λ q there. elim (Bool-cases (r.update_id == q.update_id)) [
        | inl e ↦ rw e refl
        | inr e ↦ rw e there
      ])
      (number-has (suc ordinal) rs),
)

-- The inputs of a burst are its unanswered messages,
waiting-messages :
    (db : Db) (chat_id burst_id : String)
    → All
        (IsMessageOf db chat_id burst_id)
        (number_inputs 1 (waiting_rows chat_id burst_id db.inbox))
unfolding waiting_rows
waiting-messages db chat_id burst_id =
    let test = is_waiting chat_id burst_id in
    number-All (λ r. In r db.inbox × (test r ≡ true)) (IsMessageOf db chat_id burst_id) 1
      (sort_by update_before (select_where test db.inbox))
      (λ r i same payload (there, hit). (r, there, hit, same, payload))
      (sort_by-All update_before (λ r. In r db.inbox × (test r ≡ true)) (select_where test db.inbox)
        (All-of_In (λ r. In r db.inbox × (test r ≡ true)) (select_where test db.inbox)
          (λ r i. select_where-In test db.inbox r i)))

-- and all of them.
waiting-every :
    (db : Db) (chat_id burst_id : String)
    → All
        (λ r.
          is_waiting chat_id burst_id r ≡ true
          → exists_where
              (λ i. i.update_id == r.update_id)
              (number_inputs 1 (waiting_rows chat_id burst_id db.inbox))
            ≡ true)
        db.inbox
unfolding waiting_rows
waiting-every db chat_id burst_id =
    let test = is_waiting chat_id burst_id in
    let inputs = number_inputs 1 (sort_by update_before (select_where test db.inbox)) in
    select_where-All_of (λ r. exists_where (λ i. i.update_id == r.update_id) inputs ≡ true) test
      db.inbox
      (sort_by-All_of update_before
        (λ r. exists_where (λ i. i.update_id == r.update_id) inputs ≡ true)
        (select_where test db.inbox)
        (number-has 1 (sort_by update_before (select_where test db.inbox))))

made-IsWork :
    (sha256 : String → String) (t : TurnRow) (burst_id : String) (rows : List InboxRow) (now : ℕ)
    (db : Db) (g : GenerationRow) (generations : List GenerationRow)
    → In t db.turns
    → is_due now t ≡ true
    → t.burst_id ≡ some burst_id
    → rows ≡ waiting_rows t.chat_id burst_id db.inbox
    → g ≡ generation_for sha256 t burst_id rows now db.generations
    → generations ≡ db.generations ++ g ∷ []
    → Sound db
    → IsWork db
        (claimed_tables t g rows now generations db)
        now
        (work_of t g rows now (claimed_tables t g rows now generations db))
unfolding work_of claimed_tables generation_for is_generation_active waiting_rows
made-IsWork sha256 t burst_id rows now db g generations i due burst e which same s =
    let own : g.burst_id ≡ burst_id = ap (λ x. x.burst_id) which in
    let revision : g.revision ≡ t.revision = ap (λ x. x.revision) which in
    let running : is_running g.status ≡ true = ap (λ x. is_running x.status) which in
    record {
      turn = (t, i, due, refl, burst ∙ ap some (sym own), refl);
      ascending = number-Ascending 1 rows (
          subst AscendingRows (sym e)
            (sort-AscendingRows (select_where (is_waiting t.chat_id burst_id) db.inbox)));
      numbered = number-Numbered 1 rows;
      messages =
          subst (λ b. All (IsMessageOf db t.chat_id b) (number_inputs 1 rows)) (sym own)
            (subst (λ l. All (IsMessageOf db t.chat_id burst_id) (number_inputs 1 l)) (sym e)
              (waiting-messages db t.chat_id burst_id));
      every =
          subst
            (λ b.
              All
                (λ r.
                  is_waiting t.chat_id b r ≡ true
                  → exists_where (λ j. j.update_id == r.update_id) (number_inputs 1 rows) ≡ true)
                db.inbox)
            (sym own)
            (subst
              (λ l.
                All
                  (λ r.
                    is_waiting t.chat_id burst_id r ≡ true
                    → exists_where (λ j. j.update_id == r.update_id) (number_inputs 1 l) ≡ true)
                  db.inbox)
              (sym e) (waiting-every db t.chat_id burst_id));
      rest =
          at_rest t.chat_id db.generations db.turns
            (λ u found. cc (
              subst (λ (o : Option TurnRow). o ≡ some t) found
                  (found_by_chat db.turns t s.turn_keys i),
              at_rest_if_due now t due,
            ))
            s.linked;
      active =
          subst (λ l. exists_where (current_is g.generation_id t.revision) l ≡ true) (sym same)
            (exists_where-last (current_is g.generation_id t.revision) db.generations g
              (rw (eq_refl g.generation_id, revision, running) (ground arith)));
    }

rows-IsWork :
    (sha256 : String → String) (t : TurnRow) (burst_id : String) (rows : List InboxRow) (now : ℕ)
    (db after : Db) (w : GenerationWork)
    → In t db.turns
    → is_due now t ≡ true
    → t.burst_id ≡ some burst_id
    → rows ≡ waiting_rows t.chat_id burst_id db.inbox
    → claim_rows sha256 t burst_id rows now db ≡ ok (some w, after)
    → Sound db
    → IsWork db after now w
unfolding claim_rows
rows-IsWork sha256 t burst_id [] now db after w i due burst e h s =
    absurd (cc (ap (λ a. a.0) (ok-injective h)))
rows-IsWork sha256 t burst_id (row ∷ rows) now db after w i due burst e h s =
    let g = generation_for sha256 t burst_id (row ∷ rows) now db.generations in
    let (generations, inserted, made) =
      claim_rows-parts sha256 t burst_id row rows now db (some w, after) h in
    let (free, same) = insert_generation-parts g db.generations generations inserted in
    let claimed = claimed_tables t g (row ∷ rows) now generations db in
    let is_work : w ≡ work_of t g (row ∷ rows) now claimed = ground (arith, ap (λ a. a.0) made) in
    let is_after : after ≡ claimed = ap (λ a. a.1) made in
    subst (λ d. IsWork db d now w) (sym is_after)
      (subst (IsWork db claimed now) (sym is_work)
        (made-IsWork sha256 t burst_id (row ∷ rows) now db g generations i due burst e refl same s))

burst-IsWork :
    (sha256 : String → String) (t : TurnRow) (o : Option String) (now : ℕ) (db after : Db)
    (w : GenerationWork)
    → t.burst_id ≡ o
    → In t db.turns
    → is_due now t ≡ true
    → claim_turn sha256 (some t) now db ≡ ok (some w, after)
    → Sound db
    → IsWork db after now w
unfolding claim_turn
burst-IsWork sha256 t none now db after w e i due h s =
    absurd (cc (ap (λ a. a.0) (ok-injective (rw (e, claim_turn) at h))))
burst-IsWork sha256 t (some burst_id) now db after w e i due h s =
    rows-IsWork sha256 t burst_id (waiting_rows t.chat_id burst_id db.inbox) now db after w i due e
      refl (rw (e, claim_turn) at h) s

-- The work that `claim_next_work` hands out is that of a burst that was due: its inputs are the
-- unanswered messages of the burst, all of them, in the order of their updates and numbered from 1;
-- no generation was active in the chat, and now the generation of the work is active at the revision
-- of the work.
pub claim_next_work-IsWork :
    (sha256 : String → String) (now : ℕ) (db after : Db) (w : GenerationWork)
    → Reached db
    → claim_next_work sha256 now db ≡ ok (some w, after)
    → IsWork db after now w
unfolding claim_next_work claim_turn
claim_next_work-IsWork sha256 now db after w r h =
    elim (Option-cases (least_by turn_before (select_where (is_due now) db.turns))) [
      | inl e ↦ absurd (cc (ap (λ a. a.0) (ok-injective (rw (e, claim_turn) at h))))
      | inr (t, e) ↦
          let (i, due) = due_turn now db.turns t e in
          burst-IsWork sha256 t t.burst_id now db after w refl i due (rw e at h) (Reached-Sound r)
    ]
