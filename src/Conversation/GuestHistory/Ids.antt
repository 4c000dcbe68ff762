-- ===== src/Conversation/GuestHistory/Ids.antt =====
-- The ids of a guest's messages: every stored conversation lists them in strictly increasing order.
use magento2_chat_ai.JsMap
use magento2_chat_ai.Prelude.{
  ℕ, zero, suc, ◌-◌, ◌≤◌, ◌<◌, Bool, not, Bool-cases, Option, none, some, List, [], ◌∷◌, ◌++◌,
  if_pos, if_neg, drop, take_last, length, any, keep, or_else, ◌==◌, ◌&&◌, ℕ_discrete, arith, inl,
  inr,
}
use magento2_chat_ai.Conversation.GuestHistory.{
  Message, State, conversation_id, read, write, normalize_store, messages_of, max_messages, has_id,
  before_branch, truncate_found, truncate_from_message, append, create, create_or_return,
  sort_by_update, delete, clear, rename, Conversation,
}

module _ {M : Type 0} where
  abbrev pub AllAbove : ℕ → List (Message M) → Type 0
  AllAbove k [] = Unit {0}
  AllAbove k (m ∷ ms) = (k < m.entity_id) × AllAbove k ms

  -- Strictly increasing, with no id above the bound.
  abbrev pub RisesTo : ℕ → List (Message M) → Type 0
  RisesTo hi [] = Unit {0}
  RisesTo hi (m ∷ ms) = (m.entity_id ≤ hi) × (AllAbove m.entity_id ms × RisesTo hi ms)

  AllAbove-append :
      (k hi : ℕ) (ms : List (Message M)) (x : Message M)
      → AllAbove k ms
      → k < x.entity_id
      → AllAbove k (ms ++ x ∷ [])
  AllAbove-append k hi [] x a lt = (lt, tt)
  AllAbove-append k hi (m ∷ ms) x a lt = (a.0, AllAbove-append k hi ms x a.1 lt)

  RisesTo-append :
      (hi hi' : ℕ) (ms : List (Message M)) (x : Message M)
      → RisesTo hi ms
      → hi < x.entity_id
      → x.entity_id ≤ hi'
      → RisesTo hi' (ms ++ x ∷ [])
  RisesTo-append hi hi' [] x r lt le = (le, (tt, tt))
  RisesTo-append hi hi' (m ∷ ms) x r lt le =
      let below : m.entity_id ≤ hi = r.0 in
      (
        omega arith,
        (
          AllAbove-append m.entity_id hi ms x r.1.0 (omega arith),
          RisesTo-append hi hi' ms x r.1.1 lt le,
        ),
      )

  RisesTo-weaken : (hi hi' : ℕ) (ms : List (Message M)) → hi ≤ hi' → RisesTo hi ms → RisesTo hi' ms
  RisesTo-weaken hi hi' [] le r = tt
  RisesTo-weaken hi hi' (m ∷ ms) le r =
      let below : m.entity_id ≤ hi = r.0 in
      (omega arith, (r.1.0, RisesTo-weaken hi hi' ms le r.1.1))

  RisesTo-drop : (hi n : ℕ) (ms : List (Message M)) → RisesTo hi ms → RisesTo hi (drop n ms)
  RisesTo-drop hi zero ms r = r
  RisesTo-drop hi (suc n) [] r = tt
  RisesTo-drop hi (suc n) (m ∷ ms) r = RisesTo-drop hi n ms r.1.1

  -- What a search for the branch finds among the later messages, with the first one put back.
  abbrev with_first : Message M → Option (List (Message M)) → Option (List (Message M))
  with_first m o = elim o [ none ↦ none | some kept ↦ some (m ∷ kept) ]

  with_first-AllAbove :
      (k : ℕ) (m : Message M) (o : Option (List (Message M)))
      → k < m.entity_id
      → AllAbove k (or_else o [])
      → AllAbove k (or_else (with_first m o) [])
  with_first-AllAbove k m none lt a = tt
  with_first-AllAbove k m (some kept) lt a = (lt, a)

  with_first-RisesTo :
      (hi : ℕ) (m : Message M) (o : Option (List (Message M)))
      → m.entity_id ≤ hi
      → AllAbove m.entity_id (or_else o [])
      → RisesTo hi (or_else o [])
      → RisesTo hi (or_else (with_first m o) [])
  with_first-RisesTo hi m none le a r = tt
  with_first-RisesTo hi m (some kept) le a r = (le, (a, r))

  before_branch-AllAbove :
      (from k : ℕ) (ms : List (Message M))
      → AllAbove k ms
      → AllAbove k (or_else (before_branch from ms) [])
  unfolding before_branch
  before_branch-AllAbove from k [] a = tt
  before_branch-AllAbove from k (m ∷ ms) a =
      let ih =
        with_first-AllAbove k m (before_branch from ms) a.0
          (before_branch-AllAbove from k ms a.1) in
      elim (Bool-cases ((m.entity_id == from) && m.is_user)) [
        | inl here ↦ rw here tt
        | inr there ↦ rw there ih
      ]

  before_branch-RisesTo :
      (from hi : ℕ) (ms : List (Message M))
      → RisesTo hi ms
      → RisesTo hi (or_else (before_branch from ms) [])
  unfolding before_branch
  before_branch-RisesTo from hi [] r = tt
  before_branch-RisesTo from hi (m ∷ ms) r =
      let above = before_branch-AllAbove from m.entity_id ms r.1.0 in
      let rest = before_branch-RisesTo from hi ms r.1.1 in
      let ih = with_first-RisesTo hi m (before_branch from ms) r.0 above rest in
      elim (Bool-cases ((m.entity_id == from) && m.is_user)) [
        | inl here ↦ rw here tt
        | inr there ↦ rw there ih
      ]

  -- Every conversation of the map rises.
  abbrev pub AllRise : ℕ → List (ℕ × List (Message M)) → Type 0
  AllRise hi m = (j : ℕ) → RisesTo hi (or_else (JsMap.get ℕ_discrete j m) [])

  set-AllRise :
      (hi k : ℕ) (v : List (Message M)) (m : List (ℕ × List (Message M)))
      → RisesTo hi v
      → AllRise hi m
      → AllRise hi (JsMap.set ℕ_discrete k v m)
  set-AllRise hi k v m r all j = elim (ℕ_discrete k j) [
    | yes same ↦ rw (JsMap.get-set ℕ_discrete k j v m) (rw (if_pos _ same) r)
    | no other ↦ rw (JsMap.get-set ℕ_discrete k j v m) (rw (if_neg _ other) (all j))
  ]

  delete-AllRise :
      (hi k : ℕ) (m : List (ℕ × List (Message M)))
      → AllRise hi m
      → AllRise hi (JsMap.delete ℕ_discrete k m)
  delete-AllRise hi k m all j = elim (ℕ_discrete k j) [
    | yes same ↦ rw (JsMap.get-delete ℕ_discrete k j m) (rw (if_pos _ same) tt)
    | no other ↦ rw (JsMap.get-delete ℕ_discrete k j m) (rw (if_neg _ other) (all j))
  ]

  weaken-AllRise :
      (hi hi' : ℕ) (m : List (ℕ × List (Message M))) → hi ≤ hi' → AllRise hi m → AllRise hi' m
  weaken-AllRise hi hi' m le all j =
      RisesTo-weaken hi hi' (or_else (JsMap.get ℕ_discrete j m) []) le (all j)

-- What a guest's client may ask for, with the time and the random part of new ids.
pub data Event (T M : Type 0) : Type 0 where
  creates : (now random : ℕ) (title : T) → Event T M
  appends : (now random id : ℕ) (is_user : Bool) (payload : M) → Event T M
  truncates : (now id from : ℕ) → Event T M
  deletes : (id : ℕ) → Event T M
  clears : Event T M
  renames : (now id : ℕ) (title : T) → Event T M

module _ {T M : Type 0} where
  abbrev pub IsRising : State T M → Type 0
  IsRising s = AllRise s.last_generated_id (read s).messages

  append-IsRising :
      (now random id : ℕ) (is_user : Bool) (payload : M) (s : State T M)
      → IsRising s
      → IsRising (append now random id is_user payload s).1
  unfolding append messages_of conversation_id read normalize_store
  append-IsRising now random id is_user payload s all =
      let last = s.last_generated_id in
      let next = conversation_id last now random in
      let old = messages_of id (read s) in
      let x : Message M = record {
        entity_id = next;
        is_user = is_user;
        payload = payload;
        created_at = now;
      } in
      let longer : RisesTo next (old ++ x ∷ []) =
        RisesTo-append last next old x (all id) (omega arith) (omega arith) in
      let last_100 =
        RisesTo-drop next (length (old ++ x ∷ []) - max_messages) (old ++ x ∷ []) longer in
      elim (Bool-cases (any (has_id id) (read s).conversations)) [
        | inl known ↦ rw known (
            set-AllRise next id (take_last max_messages (old ++ x ∷ [])) (read s).messages last_100
              (weaken-AllRise last next (read s).messages (omega arith) all))
        | inr missing ↦ rw missing all
      ]

  truncate_found-IsRising :
      (now id : ℕ) (o : Option (List (Message M))) (s : State T M)
      → RisesTo s.last_generated_id (or_else o [])
      → IsRising s
      → IsRising (truncate_found now id o (read s) s).1
  unfolding truncate_found write read normalize_store
  truncate_found-IsRising now id none s r all = all
  truncate_found-IsRising now id (some kept) s r all =
      set-AllRise s.last_generated_id id kept (read s).messages r all

  truncate-IsRising :
      (now id from : ℕ) (s : State T M)
      → IsRising s
      → IsRising (truncate_from_message now id from s).1
  unfolding truncate_from_message messages_of
  truncate-IsRising now id from s all =
      let o = before_branch from (messages_of id (read s)) in
      let r = before_branch-RisesTo from s.last_generated_id (messages_of id (read s)) (all id) in
      elim (Bool-cases (any (has_id id) (read s).conversations)) [
        | inl known ↦ rw known (truncate_found-IsRising now id o s r all)
        | inr missing ↦ rw missing all
      ]

  delete-IsRising : (id : ℕ) (s : State T M) → IsRising s → IsRising (delete id s).1
  unfolding delete write read normalize_store
  delete-IsRising id s all =
      elim (Bool-cases (
        length (keep (λ c. not (has_id id c)) (read s).conversations)
        == length (read s).conversations)) [
          | inl same ↦ rw same all
          | inr fewer ↦ rw fewer (delete-AllRise s.last_generated_id id (read s).messages all)
        ]

  rename-IsRising :
      (now id : ℕ) (title : T) (s : State T M) → IsRising s → IsRising (rename now id title s).1
  unfolding rename write read normalize_store
  rename-IsRising now id title s all = elim (Bool-cases (any (has_id id) (read s).conversations)) [
    | inl known ↦ rw known all
    | inr missing ↦ rw missing all
  ]

  create_or_return-IsRising :
      (now random : ℕ) (title : T) (found : List (Conversation T)) (s : State T M)
      → IsRising s
      → IsRising (create_or_return now random title (read s) found s).1
  unfolding create_or_return conversation_id read normalize_store
  create_or_return-IsRising now random title (c ∷ cs) s all = all
  create_or_return-IsRising now random title [] s all =
      let last = s.last_generated_id in
      let next = conversation_id last now random in
      set-AllRise next next [] (read s).messages tt
        (weaken-AllRise last next (read s).messages (omega arith) all)

  abbrev pub step : Event T M → State T M → State T M
  step (creates now random title) s = (create now random title s).1
  step (appends now random id is_user payload) s = (append now random id is_user payload s).1
  step (truncates now id from) s = (truncate_from_message now id from s).1
  step (deletes id) s = (delete id s).1
  step clears s = clear s
  step (renames now id title) s = (rename now id title s).1

  abbrev pub run : List (Event T M) → State T M → State T M
  run [] s = s
  run (ev ∷ evs) s = run evs (step ev s)

  step-IsRising : (ev : Event T M) (s : State T M) → IsRising s → IsRising (step ev s)
  unfolding create clear read normalize_store JsMap.get
  step-IsRising (creates now random title) s all =
      create_or_return-IsRising now random title (sort_by_update (read s).conversations) s all
  step-IsRising (appends now random id is_user payload) s all =
      append-IsRising now random id is_user payload s all
  step-IsRising (truncates now id from) s all = truncate-IsRising now id from s all
  step-IsRising (deletes id) s all = delete-IsRising id s all
  step-IsRising clears s all = λ j. tt
  step-IsRising (renames now id title) s all = rename-IsRising now id title s all

  -- From a state whose conversations list their messages in strictly increasing order of ids, none
  -- above the last generated id, any sequence of creates, appends, truncations, deletions, clears
  -- and renames leads to such a state.
  pub run-IsRising : (evs : List (Event T M)) (s : State T M) → IsRising s → IsRising (run evs s)
  run-IsRising [] s all = all
  run-IsRising (ev ∷ evs) s all = run-IsRising evs (step ev s) (step-IsRising ev s all)
