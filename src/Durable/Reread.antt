-- ===== src/Durable/Reread.antt =====
-- journal.py: a journal that was written validates, and gives its records back.
use Prim.Native.Char.{Char, code}
use Prim.Native.String.{◌++◌ as join}
use text.Mathlib.TextLemmas.{nil-append, cons-append}
use agent_learning_loop.Base.{
  ℕ, suc, String, Bool, true, false, not, ◌&&◌, Option, none, some, List, [], ◌∷◌, map, nat_eq,
  ◌==◌, string_eq, Stdlib, ◌≡◌, ◌≢◌, refl, ap, ◌∙◌, arith,
}
use agent_learning_loop.Durable.Events.{DurableEvent}
use agent_learning_loop.Durable.Journal.{
  AppendOnlyJournal, Appended, create, record_text, valid, decoded, is_cr, is_break, extend,
  splitlines, ends_in_newline, read_lines, read_and_validate_journal,
}
use agent_learning_loop.Durable.Chain.{IsChained, Links-check}
use agent_learning_loop.Durable.Written.{
  journal_text, Written, append_all, append_first, append_all-Written, create-Written,
  create-ReadyFor,
}

-- A text that `splitlines` leaves whole.
unfoldable pub is_unbroken : String → Bool
is_unbroken String.[] = true
is_unbroken (String.◌∷◌ c s) = not (is_break (code c)) && is_unbroken s

-- What is relied on of `json.dumps`, `json.loads` and pydantic at one record: its text is one line,
-- and loads as the record.
pub record IsReadable (lib : Stdlib) (loads : String → Option DurableEvent) (e : DurableEvent)
    : Type 0 where
  pub loaded : loads (record_text lib e) ≡ some e
  pub full : (record_text lib e == "") ≡ false
  pub unbroken : is_unbroken (record_text lib e) ≡ true

unfoldable pub AllReadable : Stdlib → (String → Option DurableEvent) → List DurableEvent → Type 0
AllReadable lib loads [] = Unit
AllReadable lib loads (e ∷ es) = IsReadable lib loads e × AllReadable lib loads es

extend_line :
    (c : Char) (s : String) (lines : List String)
    → extend (String.◌∷◌ c String.[]) (s ∷ lines) ≡ String.◌∷◌ c s ∷ lines
extend_line c s lines =
    ap (λ (t : String). t ∷ lines) (cons-append c "" s ∙ ap (String.◌∷◌ c) (nil-append s))

abbrev newline : Char
newline = "\n"

newline-append : (rest : String) → join "\n" rest ≡ String.◌∷◌ newline rest
newline-append rest = cons-append newline "" rest ∙ ap (String.◌∷◌ newline) (nil-append rest)

newline_split : (rest : String) → splitlines false (join "\n" rest) ≡ "" ∷ splitlines false rest
unfolding splitlines
newline_split rest = rw (newline-append rest) refl

break-is_cr : (c : ℕ) → not (is_break c) ≡ true → is_cr c ≡ false
break-is_cr c h = ground arith

flip : (b : Bool) → not b ≡ true → b ≡ false
flip true h = cc
flip false h = refl

splitlines-cons :
    (c : Char) (s : String)
    → not (is_break (code c)) ≡ true
    → splitlines false (String.◌∷◌ c s) ≡ extend (String.◌∷◌ c String.[]) (splitlines false s)
unfolding splitlines
splitlines-cons c s h = rw (flip (is_break (code c)) h, break-is_cr (code c) h) refl

-- A line that is not broken is one line of the text.
splitlines-line :
    (s rest : String)
    → is_unbroken s ≡ true
    → splitlines false (join s (join "\n" rest)) ≡ s ∷ splitlines false rest
unfolding is_unbroken
splitlines-line String.[] rest h =
    ap (splitlines false) (nil-append (join "\n" rest)) ∙ newline_split rest
splitlines-line (String.◌∷◌ c s) rest h =
    ap (splitlines false) (cons-append c s (join "\n" rest))
    ∙ splitlines-cons c (join s (join "\n" rest)) (ground (arith, h))
    ∙ ap (extend (String.◌∷◌ c String.[])) (splitlines-line s rest (ground (arith, h)))
    ∙ extend_line c s (splitlines false rest)

-- The lines of a journal's text are the texts of its records.
splitlines-journal_text :
    (lib : Stdlib) (loads : String → Option DurableEvent) (es : List DurableEvent)
    → AllReadable lib loads es
    → splitlines false (journal_text lib es) ≡ map (record_text lib) es
unfolding AllReadable splitlines
splitlines-journal_text lib loads [] h = refl
splitlines-journal_text lib loads (e ∷ es) h =
    splitlines-line (record_text lib e) (journal_text lib es) h.0.unbroken
    ∙ ap (λ (ls : List String). record_text lib e ∷ ls) (splitlines-journal_text lib loads es h.1)

read_lines-chain :
    (lib : Stdlib) (loads : String → Option DurableEvent) (previous : Option DurableEvent)
    (index : ℕ) (es : List DurableEvent)
    → AllReadable lib loads es
    → IsChained lib previous index es
    → read_lines lib loads previous index (map (record_text lib) es) ≡ valid es
unfolding AllReadable IsChained read_lines
read_lines-chain lib loads previous index [] h c = refl
read_lines-chain lib loads previous index (e ∷ es) h c =
    rw
      (
        h.0.full,
        h.0.loaded,
        Links-check lib previous index e c.0.continues c.0.numbered c.0.hashed,
        read_lines-chain lib loads (some e) (suc index) es h.1 c.1,
      )
      refl

ends-cons :
    (c : Char) (s : String) → ends_in_newline s ≡ true → ends_in_newline (String.◌∷◌ c s) ≡ true
ends-cons c String.[] h = cc
ends-cons c (String.◌∷◌ d s) h = h

ends-join : (s t : String) → ends_in_newline t ≡ true → ends_in_newline (join s t) ≡ true
ends-join String.[] t h = rw (nil-append t) h
ends-join (String.◌∷◌ c s) t h = rw (cons-append c s t) (ends-cons c (join s t) (ends-join s t h))

ends-journal_text :
    (lib : Stdlib) (e : DurableEvent) (es : List DurableEvent)
    → ends_in_newline (journal_text lib (e ∷ es)) ≡ true
ends-journal_text lib e [] = ends-join (record_text lib e) (join "\n" "") refl
ends-journal_text lib e (x ∷ es) =
    ends-join (record_text lib e) (join "\n" (journal_text lib (x ∷ es)))
      (ends-join "\n" (journal_text lib (x ∷ es)) (ends-journal_text lib x es))

Written-reads :
    (lib : Stdlib) (loads : String → Option DurableEvent) (j : AppendOnlyJournal) (e : DurableEvent)
    (es : List DurableEvent)
    → Written lib j (e ∷ es)
    → AllReadable lib loads (e ∷ es)
    → read_and_validate_journal lib loads (decoded j.content) ≡ valid (e ∷ es)
unfolding read_and_validate_journal
Written-reads lib loads j e es w h =
    rw (w.content, ends-journal_text lib e es, splitlines-journal_text lib loads (e ∷ es) h)
      (read_lines-chain lib loads none 0 (e ∷ es) h w.chained)

nothing_added :
    (lib : Stdlib) (a : Appended) (more : List Appended) (j j' : AppendOnlyJournal)
    → append_all lib j (a ∷ more) ≢ some ([], j')
nothing_added lib a more j j' h =
    let (e, j1, rest, made, found, same) = append_first lib j j' a more [] h in cc

-- At least one event is appended to a new journal, all are accepted, and each record's text is one
-- line that loads as the record: the file validates and gives back exactly the records appended.
pub read-append_all :
    (lib : Stdlib) (loads : String → Option DurableEvent) (run_id task_id : String) (a : Appended)
    (more : List Appended) (es : List DurableEvent) (j : AppendOnlyJournal)
    → append_all lib (create run_id task_id) (a ∷ more) ≡ some (es, j)
    → AllReadable lib loads es
    → read_and_validate_journal lib loads (decoded j.content) ≡ valid es
read-append_all lib loads run_id task_id a more [] j h r = absurd (nothing_added lib a more _ j h)
read-append_all lib loads run_id task_id a more (e ∷ es) j h r =
    Written-reads lib loads j e es
      (append_all-Written lib (create run_id task_id) j [] (e ∷ es) (a ∷ more)
        (create-Written lib run_id task_id) (create-ReadyFor run_id task_id (a ∷ more)) h)
      r
