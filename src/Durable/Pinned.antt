-- ===== src/Durable/Pinned.antt =====
-- journal.py: a record count and a final hash determine the journal.
use agent_learning_loop.Base.{
  ℕ, suc, String, Option, none, some, List, [], ◌∷◌, length, Stdlib, ◌≡◌, refl, sym, ap, ◌∙◌, arith,
}
use agent_learning_loop.Durable.Events.{DurableEvent}
use agent_learning_loop.Durable.Journal.{hash_of, valid, JournalFile, read_and_validate_journal}
use agent_learning_loop.Durable.Chain.{
  Continues, first, after, IsChained, read_and_validate_journal-IsChained,
}
use agent_learning_loop.Durable.Written.{last_from}

-- No two records of the two lists have the same hash and differ.
unfoldable pub IsCollisionFree : List DurableEvent → List DurableEvent → Type 0
IsCollisionFree [] ys = Unit
IsCollisionFree (x ∷ xs) [] = Unit
IsCollisionFree (x ∷ xs) (y ∷ ys) = (x.record_hash ≡ y.record_hash → x ≡ y) × IsCollisionFree xs ys

previous_hash :
    (previous : Option DurableEvent) (e : DurableEvent)
    → Continues previous e
    → e.previous_record_hash ≡ hash_of previous
previous_hash none e (first h s) = h
previous_hash (some p) e (after run task h s) = h

same_chains :
    (lib : Stdlib) (p q : Option DurableEvent) (n m : ℕ) (xs ys : List DurableEvent)
    → IsChained lib p n xs
    → IsChained lib q m ys
    → IsCollisionFree xs ys
    → length xs ≡ length ys
    → hash_of (last_from p xs) ≡ hash_of (last_from q ys)
    → (xs ≡ ys) × (hash_of p ≡ hash_of q)
unfolding IsChained IsCollisionFree
same_chains lib p q n m [] [] cx cy free l h = (refl, h)
same_chains lib p q n m [] (y ∷ ys) cx cy free l h = absurd (omega (arith, l))
same_chains lib p q n m (x ∷ xs) [] cx cy free l h = absurd (omega (arith, l))
same_chains lib p q n m (x ∷ xs) (y ∷ ys) cx cy free l h =
    let (rest, hashes) =
      same_chains lib (some x) (some y) (suc n) (suc m) xs ys cx.1 cy.1 free.1 (omega (arith, l))
        h in
    let same : x ≡ y = free.0 hashes in
    (
      ap (λ (e : DurableEvent). e ∷ xs) same ∙ ap (λ (es : List DurableEvent). y ∷ es) rest,
      sym (previous_hash p x cx.0.continues)
          ∙ ap (λ (e : DurableEvent). e.previous_record_hash) same
          ∙ previous_hash q y cy.0.continues,
    )

-- Two journals that validate, with the same number of records and the same final hash, hold the same
-- records, where no two records at the same place have the same hash and differ.
pub final_hash_pins :
    (lib : Stdlib) (loads : String → Option DurableEvent) (f g : JournalFile)
    (xs ys : List DurableEvent)
    → read_and_validate_journal lib loads f ≡ valid xs
    → read_and_validate_journal lib loads g ≡ valid ys
    → length xs ≡ length ys
    → hash_of (last_from none xs) ≡ hash_of (last_from none ys)
    → IsCollisionFree xs ys
    → xs ≡ ys
final_hash_pins lib loads f g xs ys vf vg l h free =
    (same_chains lib none none 0 0 xs ys (read_and_validate_journal-IsChained lib loads f xs vf)
      (read_and_validate_journal-IsChained lib loads g ys vg) free l h).0
