-- ===== src/Tests/Clients.antt =====
-- schedule/ and eventloop/ at concrete inputs.
use fenice_1_12_with_h.Prelude.{
  All, List, Option, inl, inr, ℕ, ◌≡◌, ◌≢◌, refl, true, false, [], ◌∷◌, some, none, arith,
}
use fenice_1_12_with_h.Prelude.Codes.{Code, err_noerror, err_connection_close}
use fenice_1_12_with_h.EventLoop.{Client, schedule_connections}
use fenice_1_12_with_h.EventLoop.Kept.{IsKnown, schedule_connections_lem}
use fenice_1_12_with_h.Schedule.{
  Entry, Sched, empty, schedule_init, schedule_add, add_entry, schedule_remove, release_all,
}
use fenice_1_12_with_h.Schedule.Count.{IsCounted, Reach, start, next, add, remove, Reach-IsCounted}
use fenice_1_12_with_h.Schedule.Release.{HoldsAt, held, destroyed, schedule_add-schedule_remove}

abbrev serving : Entry
serving = record { valid = true; rtp_session = some 7; plays = true }

abbrev one_client : Sched
one_client = record { table = serving ∷ empty ∷ []; client_count = 1 }

first_client : schedule_add true 7 (schedule_init 2) ≡ some (0, one_client)
unfolding schedule_add add_entry schedule_init
first_client = refl

abbrev no_client : Sched
no_client = record { table = record serving { valid = false } ∷ empty ∷ []; client_count = 0 }

no_client_left : no_client ≡ schedule_remove 0 one_client
unfolding schedule_remove
no_client_left = refl

no_client-Reach : Reach 2 no_client
no_client-Reach =
    next (next start (add true 7 0 first_client)) (remove 0 (omega arith) refl no_client_left)

Reach-IsCounted_example : IsCounted 2 no_client
Reach-IsCounted_example = Reach-IsCounted (omega arith) no_client-Reach

abbrev seven : HoldsAt 7 0 one_client.table
seven = record {
  before = [];
  entry = serving;
  behind = empty ∷ [];
  splits = refl;
  place = refl;
  session_is = refl;
  nowhere_else = (refl, refl);
}

seven_ne : ◌≢◌ {A = ℕ} 7 8
seven_ne e = ground (arith, e)

schedule_add-schedule_remove_example :
    (k' : Sched) × (schedule_add true 8 (schedule_remove 0 one_client) ≡ some (0, k'))
    × (held 7 k'.table ≡ 0)
    × (destroyed 7 (release_all (λ s. true) k').0 ≡ 0)
schedule_add-schedule_remove_example =
    schedule_add-schedule_remove (λ s. true) true 8 one_client seven tt seven_ne

-- Three connections, of which the client closes the second.
abbrev client : ℕ → Code → Option (List ℕ) → Client
client fd result sessions = record {
  fd = fd;
  result = result;
  sessions = sessions;
  interleaved = [];
}

abbrev clients : List Client
clients =
    client 11 err_noerror none
    ∷ client 12 err_connection_close (some (0 ∷ []))
    ∷ client 13 err_noerror none
    ∷ []

clients-IsKnown : All IsKnown clients
clients-IsKnown = (inl refl, (inr (refl, refl), (inl refl, tt)))

schedule_connections_lem_example :
    schedule_connections clients one_client
    ≡ some (record {
      list = client 11 err_noerror none ∷ client 13 err_noerror none ∷ [];
      sched = schedule_remove 0 one_client;
      closed = 12 ∷ [];
      lowered = 1;
    })
schedule_connections_lem_example = schedule_connections_lem clients one_client clients-IsKnown
