-- ===== src/Dispatcher/Tests.antt =====
-- Handlers at concrete addresses, and the theorems on them.
use mohpc.Base.{
  Bool, inr, ℕ, ◌/◌, ◌≤◌, ◌≡◌, ◌≢◌, ◌⊎◌, refl, sym, subst, arith, ◌&&◌, List, [], ◌∷◌, true, false,
  not, ◌==◌, All, length, none, some,
}
use mohpc.Dispatcher.{
  Memory, Dispatcher, empty_dispatcher, walk, get_wait_time, Handling, message_from, serve,
  process_comm, Round, process_incoming_messages, add_comm,
}
use mohpc.Dispatcher.Handlers.{Has}
use mohpc.Dispatcher.Growth.{without, is_among}
use mohpc.Dispatcher.Runs.{
  made, destroyed, Event, AreTimely, run, living, walk-run, run-Has, empty-Has,
}
use mohpc.Dispatcher.Waiting.{Somewhere, left_until, get_wait_time_lem}
use mohpc.Dispatcher.Serving.{
  in_turn, AreHanded, process_comm-AreHanded, IsServed, after_rounds,
  process_incoming_messages-IsServed,
}
use mohpc.Dispatcher.Limit.{IsLeft, process_incoming_messages-IsLeft}

abbrev memory : Memory
memory i = record { attached = true; prev = some 77; next = some 77 }

-- Three handlers, of which the middle one goes, and one at its address again.
abbrev events : List Event
events = made 4 ∷ made 7 ∷ made 5 ∷ destroyed 7 ∷ made 7 ∷ destroyed 4 ∷ []

abbrev five_seven : Dispatcher
five_seven = run events (empty_dispatcher memory)

living_run : living events [] ≡ 5 ∷ 7 ∷ []
unfolding living
living_run = refl

walked : walk 9 five_seven.nodes five_seven.root ≡ 5 ∷ 7 ∷ []
unfolding run walk
walked = refl

timely : AreTimely events []
unfolding without
timely = (tt, ((refl, tt), ((refl, (refl, tt)), (refl, ((refl, (refl, tt)), (refl, tt))))))

enough : length (living events []) ≤ 9
enough = subst (λ xs. length xs ≤ 9) (sym living_run) (omega arith)

walk-run_example : walk 9 five_seven.nodes five_seven.root ≡ living events []
walk-run_example = walk-run events memory 9 timely enough

five_seven-Has : Has (5 ∷ 7 ∷ []) five_seven
five_seven-Has =
    subst (λ xs. Has xs five_seven) living_run
      (run-Has events [] (empty_dispatcher memory) timely (empty-Has memory))

abbrev times : List ℕ
times = 0 ∷ 9000000 ∷ 7000000 ∷ []

wait_run : get_wait_time 2 3000000 times ≡ 4
unfolding get_wait_time
wait_run = refl

get_wait_time_lem_example :
    (All (λ t. t ≡ 0) times × (get_wait_time 2 3000000 times ≡ 1000 / 2))
    ⊎ (All (λ t. t ≢ 0 → get_wait_time 2 3000000 times ≤ left_until 3000000 t) times
        × Somewhere (λ t. (t ≢ 0) × (left_until 3000000 t ≡ get_wait_time 2 3000000 times)) times)
get_wait_time_lem_example = get_wait_time_lem 2 3000000 times

-- Handlers that ask until they got a message, on communicator 1; the world is who got one.
abbrev asking : Handling
asking = record {
  World = List ℕ;
  is_requesting = λ h w. not (is_among h w);
  listens = λ h comm address w. (comm == 1) && not (h == address);
  handle_incoming = λ h buf address w. h ∷ w;
  process_deferred = λ h w. w;
  process_time_out = λ h w. w;
  deferred_time = λ h w. h;
}

process_comm-AreHanded_example :
    (w' : List ℕ) × (process_comm asking 4 five_seven 1 (message_from 5 (8 ∷ [])) [] ≡ (true, w'))
    × AreHanded asking 1 5 (8 ∷ []) (5 ∷ 7 ∷ []) [] w'
process_comm-AreHanded_example =
    process_comm-AreHanded asking (5 ∷ 7 ∷ []) five_seven 4 1 5 8 [] [] (omega arith) five_seven-Has

served : in_turn asking (serve asking 1 (8 ∷ []) 5) (5 ∷ 7 ∷ []) [] ≡ 7 ∷ []
served = refl

abbrev busy : Dispatcher
busy = add_comm 1 five_seven

busy-Has : Has (5 ∷ 7 ∷ []) busy
unfolding add_comm
busy-Has = record {
  root_first = five_seven-Has.root_first;
  last_final = five_seven-Has.last_final;
  links = five_seven-Has.links;
  distinct = five_seven-Has.distinct;
  all_attached = five_seven-Has.all_attached;
}

-- A round in which a message comes from an address, at a time.
abbrev round : ℕ → ℕ → Round asking
round address time = record {
  incoming = λ c wait. message_from address (8 ∷ []);
  wait_from = time;
  time_after = time;
}

abbrev rounds_given : List (Round asking)
rounds_given = round 5 1000000 ∷ round 7 2000000 ∷ round 5 9000000 ∷ []

loop_run :
    process_incoming_messages asking 4 busy none 0 rounds_given false [] ≡ some (true, 5 ∷ 7 ∷ [])
unfolding process_incoming_messages add_comm run
loop_run = refl

-- With a limit of 2 ms, the second of the rounds is the last.
process_incoming_messages-IsLeft_example :
    (processed' : Bool) × (w' : List ℕ) × (process_incoming_messages asking 4 busy
        (some 2)
        0
        rounds_given
        false
        []
      ≡ some (processed', w'))
    × IsLeft asking 4 busy (5 ∷ 7 ∷ []) 2 0 rounds_given [] w'
process_incoming_messages-IsLeft_example =
    process_incoming_messages-IsLeft asking (5 ∷ 7 ∷ []) busy 4 2 0 (round 5 1000000 ∷ [])
      (round 7 2000000) (round 5 9000000 ∷ []) false [] (omega arith) busy-Has (inr (omega arith))

process_incoming_messages-IsServed_example :
    IsServed asking
      (5 ∷ 7 ∷ [])
      (after_rounds asking 4 busy none rounds_given [])
      (process_incoming_messages asking 4 busy none 0 rounds_given false [])
process_incoming_messages-IsServed_example =
    process_incoming_messages-IsServed asking (5 ∷ 7 ∷ []) busy 4 0 rounds_given false []
      (omega arith) busy-Has
