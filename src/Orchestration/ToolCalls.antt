-- ===== src/Orchestration/ToolCalls.antt =====
-- `collectToolCalls` of openai-compatible-orchestrator.js: the calls of tools that a provider streams
-- in parts, several at a time.
use magento2_chat_ai.Prelude.{
  ℕ, zero, suc, ◌≡◌, refl, sym, ap, ◌∙◌, Option, none, some, List, [], ◌∷◌, ◌++◌, append-nil,
  append_assoc, length, ◌==◌, arith, if◌then◌else◌, or_else,
}
use magento2_chat_ai.Text.{Text}

-- An id of the provider, or the `call_<index>` that stands in for a missing one.
pub data CallId : Type 0 where
  given : Text → CallId
  numbered : ℕ → CallId

-- A part, with an empty text where the source has none or an empty one. An index below 0, which
-- would make no element of the array, is not an index here.
pub record Delta : Type 0 where
  pub index : Option ℕ
  pub call_id : Text
  pub kind : Text
  pub name : Text
  pub arguments : Text

pub record Call : Type 0 where
  pub call_id : CallId
  pub kind : Text
  pub name : Text
  pub arguments : Text

-- The array of calls; `none` is a place that was passed over.
abbrev pub Calls : Type 0
Calls = List (Option Call)

unfoldable pub call_at : Calls → ℕ → Option Call
call_at [] i = none
call_at (c ∷ cs) zero = c
call_at (c ∷ cs) (suc i) = call_at cs i

-- `collected[index] = call`, which makes the array longer where it has to.
unfoldable pub put_call : ℕ → Call → Calls → Calls
put_call zero call [] = some call ∷ []
put_call zero call (c ∷ cs) = some call ∷ cs
put_call (suc i) call [] = none ∷ put_call i call []
put_call (suc i) call (c ∷ cs) = c ∷ put_call i call cs

-- `delta.id || \`call_${index}\``.
unfoldable pub first_id : Text → ℕ → CallId
first_id [] index = numbered index
first_id (c ∷ s) index = given (c ∷ s)

unfoldable pub later_id : Text → CallId → CallId
later_id [] old = old
later_id (c ∷ s) old = given (c ∷ s)

unfoldable pub later_kind : Text → Text → Text
later_kind [] old = old
later_kind (c ∷ s) old = c ∷ s

-- The call before the part is added: `kind` is the text `function`.
unfoldable pub opened : Text → Delta → ℕ → Option Call → Call
unfolding first_id
opened function delta index (some call) = call
opened function delta index none = record {
  call_id = first_id delta.call_id index;
  kind = function;
  name = [];
  arguments = [];
}

unfoldable pub add_delta : Delta → Call → Call
unfolding later_id later_kind
add_delta delta call = record {
  call_id = later_id delta.call_id call.call_id;
  kind = later_kind delta.kind call.kind;
  name = call.name ++ delta.name;
  arguments = call.arguments ++ delta.arguments;
}

unfoldable pub collect_delta : Text → Delta → Calls → Calls
unfolding call_at put_call opened add_delta
collect_delta function delta collected =
    let index = or_else delta.index (length collected) in
    put_call index (add_delta delta (opened function delta index (call_at collected index)))
      collected

-- `for (const delta of deltas)`.
unfoldable pub collect_tool_calls : Text → List Delta → Calls → Calls
unfolding collect_delta
collect_tool_calls function [] collected = collected
collect_tool_calls function (delta ∷ deltas) collected =
    collect_tool_calls function deltas (collect_delta function delta collected)

call_at-put_call :
    (i j : ℕ) (call : Call) (cs : Calls)
    → call_at (put_call i call cs) j ≡ (if i == j then some call else call_at cs j)
unfolding call_at put_call
call_at-put_call zero zero call [] = refl
call_at-put_call zero (suc j) call [] = ground arith
call_at-put_call zero zero call (c ∷ cs) = refl
call_at-put_call zero (suc j) call (c ∷ cs) = ground arith
call_at-put_call (suc i) zero call [] = ground arith
call_at-put_call (suc i) (suc j) call [] = ground (arith, call_at-put_call i j call [])
call_at-put_call (suc i) zero call (c ∷ cs) = ground arith
call_at-put_call (suc i) (suc j) call (c ∷ cs) = ground (arith, call_at-put_call i j call cs)

-- What an array holds of a call's arguments, nothing where there is no call.
unfoldable pub arguments_of : Option Call → Text
arguments_of none = []
arguments_of (some call) = call.arguments

unfoldable pub arguments_at : Calls → ℕ → Text
unfolding call_at arguments_of
arguments_at cs i = arguments_of (call_at cs i)

-- The arguments of the parts that carry this index, put together in their order.
unfoldable pub arguments_for : ℕ → List Delta → Text
arguments_for i [] = []
arguments_for i (delta ∷ deltas) =
    (elim delta.index [ none ↦ [] | some j ↦ if j == i then delta.arguments else [] ])
    ++ arguments_for i deltas

abbrev pub AllIndexed : List Delta → Type 0
AllIndexed [] = Unit {0}
AllIndexed (delta ∷ deltas) = ((j : ℕ) × (delta.index ≡ some j)) × AllIndexed deltas

opened-arguments :
    (function : Text) (delta : Delta) (j : ℕ) (o : Option Call)
    → (opened function delta j o).arguments ≡ arguments_of o
unfolding opened arguments_of
opened-arguments function delta j none = refl
opened-arguments function delta j (some call) = refl

collect_delta-at :
    (function : Text) (delta : Delta) (j i : ℕ) (cs : Calls)
    → arguments_at (put_call j (add_delta delta (opened function delta j (call_at cs j))) cs) i
      ≡ arguments_at cs i ++ (if j == i then delta.arguments else [])
unfolding arguments_at add_delta arguments_of
collect_delta-at function delta j i cs = ground (
  arith,
  call_at-put_call j i (add_delta delta (opened function delta j (call_at cs j))) cs,
  opened-arguments function delta j (call_at cs j),
  append-nil (arguments_at cs i),
)

collect_delta-arguments :
    (function : Text) (delta : Delta) (j i : ℕ) (cs : Calls)
    → delta.index ≡ some j
    → arguments_at (collect_delta function delta cs) i
      ≡ arguments_at cs i ++ (if j == i then delta.arguments else [])
unfolding collect_delta
collect_delta-arguments function delta j i cs h =
    let at : or_else delta.index (length cs) ≡ j = ap (λ (o : Option ℕ). or_else o (length cs)) h in
    ap
      (λ (k : ℕ).
        arguments_at (put_call k (add_delta delta (opened function delta k (call_at cs k))) cs) i)
      at
    ∙ collect_delta-at function delta j i cs

-- Where every part carries its index, each call has in the end the arguments that it had and those
-- of its own parts, in their order, however the parts of several calls are mixed.
pub collect_tool_calls-arguments :
    (function : Text) (deltas : List Delta) (i : ℕ) (cs : Calls)
    → AllIndexed deltas
    → arguments_at (collect_tool_calls function deltas cs) i
      ≡ arguments_at cs i ++ arguments_for i deltas
unfolding collect_tool_calls arguments_for
collect_tool_calls-arguments function [] i cs h = sym (append-nil (arguments_at cs i))
collect_tool_calls-arguments function (delta ∷ deltas) i cs ((j, h), hs) =
    collect_tool_calls-arguments function deltas i (collect_delta function delta cs) hs
    ∙ ap (λ (r : Text). r ++ arguments_for i deltas)
        (collect_delta-arguments function delta j i cs h)
    ∙ append_assoc (arguments_at cs i) (if j == i then delta.arguments else [])
        (arguments_for i deltas)
    ∙ ap
        (λ (o : Option ℕ).
          arguments_at cs i
          ++ ((elim o [ none ↦ [] | some k ↦ if k == i then delta.arguments else [] ])
              ++ arguments_for i deltas))
        (sym h)
