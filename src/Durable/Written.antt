-- ===== src/Durable/Written.antt =====
-- journal.py: what `append` writes is a chain of records.
use Prim.Native.String.{◌++◌ as join}
use text.Mathlib.TextLemmas.{append-nil, append_assoc, nil-append}
use mathlib.Core.Path.{subst}
use mathlib.Core.List
use agent_learning_loop.Base.{
  ℕ, suc, ◌+◌, String, Bool, true, false, Option, none, some, List, [], ◌∷◌, ◌++◌, length,
  length-append, string_eq, Stdlib, if◌then◌else◌, Option-cases, ◌≡◌, ◌⊎◌, inl, inr, refl, sym, ap,
  ◌∙◌, arith,
}
use agent_learning_loop.Durable.Events.{DurableEventKind, DurableEvent, accepts_event}
use agent_learning_loop.Durable.Journal.{
  AppendOnlyJournal, Appended, create, append, next_event, record_text, with_event,
}
use agent_learning_loop.Durable.Chain.{Continues, first, after, Links, IsChained}

-- The text of a journal with these records.
abbrev pub journal_text : Stdlib → List DurableEvent → String
journal_text lib [] = ""
journal_text lib (e ∷ es) = join (record_text lib e) (join "\n" (journal_text lib es))

journal_text-append :
    (lib : Stdlib) (es : List DurableEvent) (e : DurableEvent)
    → journal_text lib (es ++ e ∷ []) ≡ join (journal_text lib es) (join (record_text lib e) "\n")
journal_text-append lib [] e = ap (join (record_text lib e)) (append-nil "\n") ∙ sym (nil-append _)
journal_text-append lib (x ∷ es) e =
    ap (λ (t : String). join (record_text lib x) (join "\n" t)) (journal_text-append lib es e)
    ∙ sym (
        append_assoc (record_text lib x) (join "\n" (journal_text lib es))
          (join (record_text lib e) "\n")
        ∙ ap (join (record_text lib x))
            (append_assoc "\n" (journal_text lib es) (join (record_text lib e) "\n")))

-- the last of the records after a first one
abbrev pub last_from : Option DurableEvent → List DurableEvent → Option DurableEvent
last_from previous [] = previous
last_from previous (e ∷ es) = last_from (some e) es

IsChained-append :
    (lib : Stdlib) (previous : Option DurableEvent) (index : ℕ) (es : List DurableEvent)
    (e : DurableEvent)
    → IsChained lib previous index es
    → Links lib (last_from previous es) (index + length es) e
    → IsChained lib previous index (es ++ e ∷ [])
unfolding IsChained
IsChained-append lib previous index [] e h l = (
  record { numbered = omega (arith, l.numbered); continues = l.continues; hashed = l.hashed },
  tt,
)
IsChained-append lib previous index (x ∷ es) e h l = (
  h.0,
  IsChained-append lib (some x) (suc index) es e h.1
      (record { numbered = omega (arith, l.numbered); continues = l.continues; hashed = l.hashed }),
)

last_from-append :
    (previous : Option DurableEvent) (es : List DurableEvent) (e : DurableEvent)
    → last_from previous (es ++ e ∷ []) ≡ some e
last_from-append previous [] e = refl
last_from-append previous (x ∷ es) e = last_from-append (some x) es e

-- A journal object and the records that its file holds.
pub record Written (lib : Stdlib) (j : AppendOnlyJournal) (es : List DurableEvent) : Type 0 where
  pub content : j.content ≡ journal_text lib es
  pub count : j.record_count ≡ length es
  pub chained : IsChained lib none 0 es

-- The journal may append an event of this kind after the last one.
pub record Joins (j : AppendOnlyJournal) (kind : DurableEventKind) (p : DurableEvent) : Type 0 where
  pub hash : j.final_hash ≡ p.record_hash
  pub run : j.run_id ≡ p.run_id
  pub task : j.task_id ≡ p.task_id
  pub segment :
      (j.segment ≡ p.segment)
      ⊎ ((j.segment ≡ p.segment + 1) × (kind ≡ DurableEventKind.run_resumed))

pub Ready : AppendOnlyJournal → DurableEventKind → Option DurableEvent → Type 0
Ready j kind none = (j.final_hash ≡ "") × (j.segment ≡ 0)
Ready j kind (some p) = Joins j kind p

next-Continues :
    (lib : Stdlib) (j : AppendOnlyJournal) (a : Appended) (previous : Option DurableEvent)
    → Ready j a.event_kind previous
    → Continues previous (next_event lib j a)
unfolding Ready next_event
next-Continues lib j a none h = first h.0 h.1
next-Continues lib j a (some p) h = after h.run h.task h.hash h.segment

some_if : {A : Type 0} (b : Bool) (x y : A) → (if b then some x else none) ≡ some y → x ≡ y
some_if true x y h = cc
some_if false x y h = cc

-- What an accepted event leaves.
appended :
    (lib : Stdlib) (j j' : AppendOnlyJournal) (a : Appended) (e : DurableEvent)
    → append lib j a ≡ some (e, j')
    → (e ≡ next_event lib j a) × (j' ≡ with_event lib j (next_event lib j a))
unfolding append
appended lib j j' a e h =
    let same : ◌≡◌ {A = DurableEvent × AppendOnlyJournal}
        (next_event lib j a, with_event lib j (next_event lib j a)) (e, j') =
      some_if (accepts_event (next_event lib j a)) _ _ h in
    (
      sym (ap (λ (x : DurableEvent × AppendOnlyJournal). x.0) same),
      sym (ap (λ (x : DurableEvent × AppendOnlyJournal). x.1) same),
    )

next-Links :
    (lib : Stdlib) (j : AppendOnlyJournal) (a : Appended) (es : List DurableEvent)
    → Written lib j es
    → Ready j a.event_kind (last_from none es)
    → Links lib (last_from none es) (0 + length es) (next_event lib j a)
unfolding next_event
next-Links lib j a es w r = record {
  numbered = omega (arith, w.count);
  continues = next-Continues lib j a (last_from none es) r;
  hashed = refl;
}

with_event-Written :
    (lib : Stdlib) (j : AppendOnlyJournal) (e : DurableEvent) (es : List DurableEvent)
    → Written lib j es
    → Links lib (last_from none es) (0 + length es) e
    → Written lib (with_event lib j e) (es ++ e ∷ [])
with_event-Written lib j e es w l = record {
  content =
      ap (λ (t : String). join t (join (record_text lib e) "\n")) w.content
      ∙ sym (journal_text-append lib es e);
  count = omega (arith, w.count, length-append {0} es (e ∷ []));
  chained = IsChained-append lib none 0 es e w.chained l;
}

-- After an event, the journal may append one of any kind in its segment.
with_event-Ready :
    (lib : Stdlib) (j : AppendOnlyJournal) (a : Appended) (kind : DurableEventKind)
    → Ready (with_event lib j (next_event lib j a)) kind (some (next_event lib j a))
unfolding Ready next_event
with_event-Ready lib j a kind = record { hash = refl; run = refl; task = refl; segment = inl refl }

abbrev add_event :
    DurableEvent
    → Option (List DurableEvent × AppendOnlyJournal)
    → Option (List DurableEvent × AppendOnlyJournal)
add_event e none = none
add_event e (some (es, j)) = some (e ∷ es, j)

-- The events of several calls of `append`, and the journal after them; `none` when one is refused.
unfoldable pub append_all :
    Stdlib → AppendOnlyJournal → List Appended → Option (List DurableEvent × AppendOnlyJournal)
unfolding append
append_all lib j [] = some ([], j)
append_all lib j (a ∷ more) = elim (append lib j a) [
  | none ↦ none
  | some (e, j') ↦ add_event e (append_all lib j' more)
]

added :
    (e : DurableEvent) (rest : Option (List DurableEvent × AppendOnlyJournal))
    (es : List DurableEvent) (j : AppendOnlyJournal)
    → add_event e rest ≡ some (es, j)
    → (more : List DurableEvent) × (rest ≡ some (more, j)) × (es ≡ e ∷ more)
added e none es j h = cc
added e (some (more, j')) es j h = (more, cc, cc)

pub append_first :
    (lib : Stdlib) (j j' : AppendOnlyJournal) (a : Appended) (more : List Appended)
    (es : List DurableEvent)
    → append_all lib j (a ∷ more) ≡ some (es, j')
    → (e : DurableEvent) × (j1 : AppendOnlyJournal) × (rest : List DurableEvent) × (append lib j a
        ≡ some (e, j1))
      × (append_all lib j1 more ≡ some (rest, j'))
      × (es ≡ e ∷ rest)
unfolding append_all
append_first lib j j' a more es h = elim (Option-cases (append lib j a)) [
  | inl refused ↦ absurd (ground (arith, refused, h))
  | inr ((e, j1), made) ↦
      let (rest, found, same) = added e (append_all lib j1 more) es j' (ground (arith, made, h)) in
      (e, j1, rest, made, found, same)
]

-- the first call may append its event
pub ReadyFor : AppendOnlyJournal → List Appended → Option DurableEvent → Type 0
ReadyFor j [] previous = Unit
ReadyFor j (a ∷ more) previous = Ready j a.event_kind previous

next-ReadyFor :
    (lib : Stdlib) (j : AppendOnlyJournal) (a : Appended) (more : List Appended)
    → ReadyFor (with_event lib j (next_event lib j a)) more (some (next_event lib j a))
unfolding ReadyFor
next-ReadyFor lib j a [] = tt
next-ReadyFor lib j a (b ∷ more) = with_event-Ready lib j a b.event_kind

pub append_all-Written :
    (lib : Stdlib) (j j' : AppendOnlyJournal) (before es : List DurableEvent)
    (calls : List Appended)
    → Written lib j before
    → ReadyFor j calls (last_from none before)
    → append_all lib j calls ≡ some (es, j')
    → Written lib j' (before ++ es)
unfolding append_all ReadyFor
append_all-Written lib j j' before es [] w r h =
    let none_added : ◌≡◌ {A = List DurableEvent} [] es = cc in
    let same : j ≡ j' = cc in
    subst (λ (x : AppendOnlyJournal). Written lib x (before ++ es)) same
      (subst (λ (xs : List DurableEvent). Written lib j (before ++ xs)) none_added
        (subst (Written lib j) (sym (List.append-nil before)) w))
append_all-Written lib j j' before es (a ∷ more) w r h =
    let (e, j1, rest, made, found, same) = append_first lib j j' a more es h in
    let (is_next, is_with) = appended lib j j1 a e made in
    let next : DurableEvent = next_event lib j a in
    let w1 : Written lib (with_event lib j next) (before ++ next ∷ []) =
      with_event-Written lib j next before w (next-Links lib j a before w r) in
    let r1 : ReadyFor (with_event lib j next) more (last_from none (before ++ next ∷ [])) =
      rw (last_from-append none before next) (next-ReadyFor lib j a more) in
    let all_written : Written lib j' ((before ++ next ∷ []) ++ rest) =
      append_all-Written lib (with_event lib j next) j' (before ++ next ∷ []) rest more w1 r1 (
        subst (λ (x : AppendOnlyJournal). append_all lib x more ≡ some (rest, j')) is_with found) in
    subst (λ (xs : List DurableEvent). Written lib j' (before ++ xs))
      (sym (same ∙ ap (λ (x : DurableEvent). x ∷ rest) is_next))
      (subst (Written lib j') (List.append_assoc before (next ∷ []) rest) all_written)

-- A new journal holds no record.
pub create-Written :
    (lib : Stdlib) (run_id task_id : String) → Written lib (create run_id task_id) []
unfolding create IsChained
create-Written lib run_id task_id = record { content = refl; count = refl; chained = tt }

pub create-ReadyFor :
    (run_id task_id : String) (calls : List Appended) → ReadyFor (create run_id task_id) calls none
unfolding create ReadyFor Ready
create-ReadyFor run_id task_id [] = tt
create-ReadyFor run_id task_id (a ∷ more) = (refl, refl)
