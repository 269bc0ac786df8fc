-- ===== src/Tests/Runs.antt =====
-- Runs of the control plane at concrete calls.
use native.Mathlib.Decide.{ℕ_discrete}
use remote_dev_skillkit.Prelude.Int.{ℤ_discrete}
use remote_dev_skillkit.Prelude.{
  ◌+◌, ◌<◌, ◌^◌, ltb, String, Bool, true, ◌&&◌, some, List, [], ◌∷◌, ◌≡◌, refl, ◌⊎◌, pos, string_eq,
  get, put, Dict, find_indexed, arith, String_discrete,
}
use remote_dev_skillkit.Exec.{ok, err}
use remote_dev_skillkit.ControlPlane.Protocol.{text, Failure, session_terminal}
use remote_dev_skillkit.ControlPlane.Session.{Session, Event}
use remote_dev_skillkit.ControlPlane.World.{id_text, join_code_text}
use remote_dev_skillkit.ControlPlane.Store.{
  MemoryStore, new_memory_store, put_store, now, new_id, new_join_code, session_expired,
}
use remote_dev_skillkit.ControlPlane.Append.{
  append_event_locked, store_event, append_keyed, append_new, check_payload, open_to,
  json_payload_size,
}
use remote_dev_skillkit.ControlPlane.Append.Replay.{append_event_locked-twice}
use remote_dev_skillkit.ControlPlane.Lifecycle.{
  create_session, store_new_session_locked, session_of,
}
use remote_dev_skillkit.ControlPlane.Tasks.{is_terminal, has_id}
use remote_dev_skillkit.ControlPlane.Writes.{Writes, IsKeyed, start}
use remote_dev_skillkit.ControlPlane.Writes.Rules.{Refines}
use remote_dev_skillkit.ControlPlane.Writes.Artifacts.{Interferes, resume_task-Refines}
use remote_dev_skillkit.ControlPlane.Artifacts.{resume_task, compact_events}
use remote_dev_skillkit.ControlPlane.Machine.{
  Call, create, append, submit, mark_running, close, compact, step, run,
}
use remote_dev_skillkit.ControlPlane.Invariants.Sessions.{Remains, run-Remains}
use remote_dev_skillkit.ControlPlane.Invariants.Logs.{HasNumbers, IsSequenced, run-IsSequenced}
use remote_dev_skillkit.ControlPlane.Invariants.History.{Past, run-Past}
use remote_dev_skillkit.ControlPlane.Invariants.Tasks.{Lives, run-Lives, run-ended_task}
use remote_dev_skillkit.Tests.Data.{
  Apart, unequal_by_test, test_world, spec, session, store, at_start, hello, finished, offered,
  task_spec,
}

abbrev calls : List Call
calls = append "ses" hello ∷ mark_running "ses" "task" ∷ submit "ses" task_spec ∷ close "ses" ∷ []

store-IsKeyed : IsKeyed store
unfolding get
store-IsKeyed = record { keyed = λ i s h. ground arith }

found : get "ses" store.sessions ≡ some session
unfolding get String_discrete
found = refl

run-Remains_example : Remains "ses" (run calls (at_start store)).store session
run-Remains_example = run-Remains calls (at_start store) "ses" session store-IsKeyed found

run-Lives_example : Lives "ses" "task" (run calls (at_start store)).store offered 1
unfolding String_discrete
run-Lives_example =
    run-Lives calls (at_start store) "ses" "task" session offered 1 store-IsKeyed found refl

run-ended_task_example :
    (later : Session) × (get "ses" (run calls (at_start store)).sessions ≡ some later)
    × (find_indexed (has_id "old") 0 later.tasks ≡ some (finished, 0))
unfolding String_discrete is_terminal
run-ended_task_example =
    run-ended_task calls (at_start store) "ses" "old" session finished 0 store-IsKeyed found refl
      refl

-- Whether every session has numbers left.
abbrev roomy : Dict String Session → Bool
roomy [] = true
roomy ((i, s) ∷ m) = ltb (s.last_seq + 1) (2 ^ 64) && roomy m

roomy-below :
    (m : Dict String Session) (id : String) (s : Session)
    → roomy m ≡ true
    → get id m ≡ some s
    → s.last_seq + 1 < 2 ^ 64
unfolding get
roomy-below [] id s h g = ground arith
roomy-below ((i, t) ∷ m) id s h g = ground (arith, roomy-below m id s)

roomy-HasNumbers : (m : MemoryStore) → roomy m.sessions ≡ true → HasNumbers m
roomy-HasNumbers m h = record { below = λ id s g. roomy-below m.sessions id s h g }

created_room : roomy (run (create spec ∷ []) (at_start new_memory_store)).sessions ≡ true
unfolding run step create_session store_new_session_locked put_store now new_id new_join_code put
    get session_of
created_room = refl

run-IsSequenced_example : IsSequenced (run (create spec ∷ []) (at_start new_memory_store)).store
run-IsSequenced_example =
    run-IsSequenced (create spec ∷ []) (at_start new_memory_store) refl
      (roomy-HasNumbers _ created_room)

compacted_room : roomy (run (compact "ses" 1 ∷ create spec ∷ []) (at_start store)).sessions ≡ true
unfolding run step create_session store_new_session_locked put_store now new_id new_join_code put
    get compact_events String_discrete id_text session_of join_code_text
compacted_room = refl

run-Past_example :
    Past "ses" 1 store (run (compact "ses" 1 ∷ create spec ∷ []) (at_start store)).store
run-Past_example =
    run-Past (compact "ses" 1 ∷ create spec ∷ []) (at_start store) "ses" session store-IsKeyed found
      (roomy-HasNumbers _ compacted_room)

pause-Interferes : Interferes (λ s. s)
pause-Interferes = record { at = λ s k. start }

-- The finished task carries the contract of an engineering task.
abbrev with_contract : Session
with_contract = record session {
  tasks = record finished { payload = some (("engineering_task", text "contract") ∷ []) } ∷ [];
}

abbrev resumable : MemoryStore
resumable = record store { sessions = ("ses", with_contract) ∷ [] }

resume_task-Refines_example :
    Refines resumable (resume_task (λ s. s) "ses" "old" "checkpoint" "again")
resume_task-Refines_example =
    resume_task-Refines resumable (λ s. s) "ses" "old" "checkpoint" "again" pause-Interferes

abbrev entry : Event
entry = record hello {
  schema_version = "rdev.event.v1";
  id = id_text "evt" 7;
  session_id = "ses";
  seq = 2;
  created_at = pos 1_000;
}

sent : (append_event_locked "ses" hello true (at_start store)).0 ≡ ok entry
unfolding append_event_locked store_event append_keyed append_new check_payload open_to
    json_payload_size session_expired now new_id get String_discrete session_terminal ℤ_discrete
    ℕ_discrete
sent = refl

keyed : Apart "key" ""
unfolding String_discrete
keyed = unequal_by_test "key" "" refl

append_event_locked-twice_example :
    (let t = (append_event_locked "ses" hello true (at_start store)).1 in
      let m = append_event_locked "ses" hello true t in
      ((m.0 ≡ ok entry) ⊎ ((c : Failure) × (m.0 ≡ err c)))
      × (m.1.store ≡ t.store)
      × (m.1.notified ≡ t.notified))
append_event_locked-twice_example =
    append_event_locked-twice "ses" hello entry true true (at_start store)
      (append_event_locked "ses" hello true (at_start store)).1 keyed sent refl
