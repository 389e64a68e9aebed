-- ===== src/Server/Tests.antt =====
-- A run of the threads of src/floodgate/exhook_server.py.
use floodgate.Common.{◌+◌, ◌≤◌, true, List, [], ◌∷◌, ◌≡◌, refl}
use floodgate.Config.Samples.{loaded}
use floodgate.Samples.{world}
use floodgate.Stats.{snapshot, dropped, read}
use floodgate.ExHook.{Message}
use floodgate.Server.{ended}
use floodgate.Server.Threads.{
  System, accept, time_out, wake, begin_stop, end_grpc, end_health, Reaches, here, next, stop_grpc,
  set_stop_event, shutdown_health, acts_of, reporter_wakes,
}
use floodgate.Server.Threads.Counting.{pending, gains, stats_logged}
use floodgate.Server.Threads.Conserves.{booted, held, Reaches-logged}
use floodgate.Server.Threads.Shutdown.{IsDraining, backlog, steps, steps_left, Reaches-ends}
use floodgate.Server.Threads.Totals.{Reaches-total}
use floodgate.Server.Threads.Lifecycle.{stop-finishes}

abbrev publish : Message
publish = record {
  node = "emqx@127.0.0.1";
  id = "0006";
  qos = 0;
  from = "gateway";
  topic = "msh/US/2/json/LongFast/!abcd1234";
  payload = 5 ∷ [];
  timestamp = 1700000000;
  headers = [];
}

-- A message is taken in, and the reporter wakes before the worker has done anything.
abbrev halfway : System
halfway = reporter_wakes (record (booted 9000 8080) { workers = acts_of world loaded publish ∷ [] })

abbrev halfway_run : Reaches world loaded 60 true (booted 9000 8080) (publish ∷ []) halfway
halfway_run = next (next (next here (accept publish 9000 refl)) (time_out refl refl)) (wake refl)

abbrev stopping : System
stopping = stop_grpc (set_stop_event halfway)

abbrev stopped_run : Reaches world loaded 60 true (booted 9000 8080) (publish ∷ []) stopping
stopped_run = next (next halfway_run (begin_stop refl)) (end_grpc refl)

draining : IsDraining stopping
draining = record { no_messages = refl; is_set = refl }

abbrev rest : Reaches world loaded 60 true stopping [] (shutdown_health stopping)
rest = next here (end_health refl)

Reaches-logged_example :
    stats_logged dropped halfway.service.records
      + held dropped halfway.reporter
      + read halfway.service.stats.rolling dropped
      + pending dropped halfway.workers
    ≡ gains world loaded dropped (publish ∷ [])
Reaches-logged_example = Reaches-logged world loaded 60 9000 8080 dropped halfway_run

Reaches-ends_example :
    (steps world loaded 60 true rest + steps_left (shutdown_health stopping) ≤ steps_left stopping)
    × (IsDraining (shutdown_health stopping) × (◌≡◌ {A = List Message} [] []))
Reaches-ends_example = Reaches-ends world loaded 60 true draining rest

stop-finishes_example :
    (t : System) × (Reaches world loaded 60 true (booted 9000 8080) (publish ∷ []) t
      × ((backlog t.workers ≡ 0)
          × ((t.reporter ≡ ended)
              × ((read t.service.stats.lifetime dropped ≡ gains world loaded dropped (publish ∷ []))
                  × (stats_logged dropped t.service.records + read t.service.stats.rolling dropped
                      ≡ gains world loaded dropped (publish ∷ []))))))
stop-finishes_example = stop-finishes world loaded 60 9000 8080 dropped stopped_run refl

-- All the threads at rest.
abbrev finished :
    (t : System) × (Reaches world loaded 60 true (booted 9000 8080) (publish ∷ []) t
      × ((backlog t.workers ≡ 0)
          × ((t.reporter ≡ ended)
              × ((read t.service.stats.lifetime dropped ≡ gains world loaded dropped (publish ∷ []))
                  × (stats_logged dropped t.service.records + read t.service.stats.rolling dropped
                      ≡ gains world loaded dropped (publish ∷ []))))))
finished = stop-finishes world loaded 60 9000 8080 dropped stopped_run refl

Reaches-total_example :
    (1 ≤ (snapshot finished.0.service.stats).total)
    × ((snapshot finished.0.service.stats).total ≤ 2)
Reaches-total_example = Reaches-total world loaded 60 9000 8080 true finished.1.0 finished.1.1.0
