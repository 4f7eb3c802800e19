-- ===== src/Tests/CollectTests.antt =====
-- Two Sources under a cap of one, and a context that ends while the second has just taken the slot.
use gazetteer.Prelude.{ℕ, String, not, some, List, [], ◌∷◌, ◌≡◌, ◌≤◌, refl, All}
use gazetteer.Prelude.Names.{holds}
use gazetteer.Prelude.Dict.{lookup, insert}
use gazetteer.Errors.{Node, leaf}
use gazetteer.Client.{Ctx, names_of}
use gazetteer.Client.Run.{run_one, not_run_result}
use gazetteer.Client.Envelope.{is_none}
use gazetteer.Client.Collect.{Action, Event, Task, Shared, collect, Phase}
use gazetteer.Client.Slots.{collect-bounded, running, slots}
use gazetteer.Client.Recorded.{IsRecorded}
use gazetteer.Client.Complete.{collect_complete}
use gazetteer.Client.Delivery.{IsDelivered, collect-IsDelivered}
use gazetteer.Client.Progress.{IsEnabled, collect-progress}
use gazetteer.Client.Finish.{CanFinish, collect-finishes}
use gazetteer.Prelude.Int.{pos}
use gazetteer.Tests.ClientTests.{numbers, slow, two}

abbrev ends_at_12 : Ctx
ends_at_12 = some record { at = 12; reason = leaf Node.canceled; cause = leaf Node.canceled }

abbrev event : ℕ → ℕ → Action → Event
event now task action = record { now = now; task = task; action = action }

abbrev start : List Event
start = event 0 0 Action.look ∷ event 0 0 Action.take ∷ event 1 1 Action.look ∷ []

abbrev all : List Event
all =
    event 0 0 Action.look
    ∷ event 0 0 Action.take
    ∷ event 1 1 Action.look
    ∷ event 1 0 Action.recheck
    ∷ event 11 0 Action.write
    ∷ event 11 0 Action.release
    ∷ event 11 1 Action.take
    ∷ event 12 1 Action.recheck
    ∷ event 13 1 Action.write
    ∷ []

abbrev task : String → ℕ → ℕ → Phase → Task ℕ ℕ
task name took v phase = record { source = slow name took v; phase = phase }

abbrev at_start : List (Task ℕ ℕ)
at_start = task "dvf" 10 5 Phase.holding ∷ task "osm" 20 0 Phase.selecting ∷ []

abbrev shared_at_start : Shared ℕ
shared_at_start = record { used = 1; results = [] }

abbrev at_end : List (Task ℕ ℕ)
at_end = task "dvf" 10 5 Phase.finished ∷ task "osm" 20 0 Phase.finished ∷ []

abbrev shared_at_end : Shared ℕ
shared_at_end = record {
  used = 0;
  results =
      ("dvf", (run_one numbers ends_at_12 (slow "dvf" 10 5) 1 (pos 0) 1).0)
      ∷ ("osm", not_run_result (slow "osm" 20 0) (leaf Node.canceled) 13)
      ∷ [];
}

ran_start : collect two numbers ends_at_12 1 start two.sources ≡ some (at_start, shared_at_start)
unfolding collect
ran_start = refl

ran_all : collect two numbers ends_at_12 1 all two.sources ≡ some (at_end, shared_at_end)
unfolding collect insert
ran_all = refl

collect-bounded_example : (shared_at_start.used ≡ slots at_start) × (running at_start ≤ 1)
collect-bounded_example =
    collect-bounded two numbers ends_at_12 1 start two.sources at_start shared_at_start refl
      ran_start

collect_complete_example :
    All (λ s. IsRecorded two numbers ends_at_12 1 s shared_at_end.results) two.sources
    × (is_none (lookup "osm" shared_at_end.results) ≡ not (holds "osm" (names_of two.sources)))
collect_complete_example =
    collect_complete two numbers ends_at_12 1 all two.sources at_end shared_at_end "osm" refl
      ran_all refl

collect-finishes_example : CanFinish two numbers ends_at_12 1 start two.sources
collect-finishes_example =
    collect-finishes two numbers ends_at_12 1 start two.sources at_start shared_at_start refl
      ran_start

collect-progress_example : IsEnabled two numbers ends_at_12 1 at_start shared_at_start
collect-progress_example =
    collect-progress two numbers ends_at_12 1 start two.sources at_start shared_at_start refl
      ran_start refl

collect-IsDelivered_example :
    All (IsDelivered two numbers ends_at_12 1 shared_at_end.results) two.sources
collect-IsDelivered_example =
    collect-IsDelivered two numbers ends_at_12 1 all two.sources at_end shared_at_end refl ran_all
      refl
