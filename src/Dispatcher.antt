-- ===== src/Dispatcher.antt =====
-- `MessageDispatcher` of mohpc-lib/Utility/MessageDispatcher.cpp, and the constructor and destructor of
-- `IncomingMessageHandler` in mohpc-lib/Utility/RequestHandler.cpp. The handlers are a doubly linked
-- list in memory: a handler is its address, and the memory a function of it. What a handler does with
-- a message and what the clock shows are parameters, and change no link.
pub mod Links
pub mod Handlers
pub mod Growth
pub mod Runs
pub mod Clearing
pub mod Waiting
pub mod Serving
pub mod Limit
mod Tests
use mohpc.Base.{
  ℕ, zero, suc, ◌+◌, ◌*◌, ◌-◌, ◌/◌, ◌≡◌, min, List, [], ◌∷◌, ◌++◌, map, length, Bool, true, false,
  not, ltb, leb, ◌==◌, ◌&&◌, ◌||◌, if◌then◌else◌, Option, none, some,
}

-- The links of a handler, and whether it knows its dispatcher.
pub record Node : Type 0 where
  pub attached : Bool
  pub prev : Option ℕ
  pub next : Option ℕ

abbrev pub Memory : Type 0
Memory = ℕ → Node

pub record Dispatcher : Type 0 where
  pub nodes : Memory
  pub root : Option ℕ
  pub last : Option ℕ
  pub comm_list : List ℕ

-- An assignment through a pointer, and one that a test for null stands before.
abbrev pub update : ℕ → (Node → Node) → Memory → Memory
update h f nodes i = if i == h then f (nodes i) else nodes i

abbrev pub update_through : Option ℕ → (Node → Node) → Memory → Memory
update_through none f nodes = nodes
update_through (some h) f nodes = update h f nodes

abbrev pub set_prev : Option ℕ → Node → Node
set_prev p n = record n { prev = p }

abbrev pub set_next : Option ℕ → Node → Node
set_next p n = record n { next = p }

abbrev pub points_to : Option ℕ → ℕ → Bool
points_to none h = false
points_to (some p) h = p == h

abbrev pub or_some : Option ℕ → ℕ → Option ℕ
or_some none h = some h
or_some (some p) h = some p

-- `MessageDispatcher::MessageDispatcher`
abbrev pub empty_dispatcher : Memory → Dispatcher
empty_dispatcher nodes = record { nodes = nodes; root = none; last = none; comm_list = [] }

-- `addHandler`
unfoldable pub add_handler : ℕ → Dispatcher → Dispatcher
add_handler h d = record d {
  root = or_some d.root h;
  nodes = update h (set_prev d.last) (update_through d.last (set_next (some h)) d.nodes);
  last = some h;
}

-- `removeHandler`; its links are as they were.
unfoldable pub remove_handler : ℕ → Dispatcher → Dispatcher
remove_handler h d =
    let nodes = update_through (d.nodes h).next (set_prev (d.nodes h).prev) d.nodes in
    record d {
      root = if points_to d.root h then (d.nodes h).next else d.root;
      last = if points_to d.last h then (d.nodes h).prev else d.last;
      nodes = update_through (nodes h).prev (set_next (nodes h).next) nodes;
    }

-- `IncomingMessageHandler::IncomingMessageHandler`
unfoldable pub make_handler : ℕ → Dispatcher → Dispatcher
unfolding add_handler
make_handler h d =
    let fresh : Node = record { attached = true; prev = none; next = none } in
    add_handler h (record d { nodes = update h (λ _. fresh) d.nodes })

-- `IncomingMessageHandler::~IncomingMessageHandler`
unfoldable pub destroy_handler : ℕ → Dispatcher → Dispatcher
unfolding remove_handler
destroy_handler h d = if (d.nodes h).attached then remove_handler h d else d

-- `for (p = root; p; p = p->next)`, as the handlers it comes by in `rounds` rounds
unfoldable pub walk : ℕ → Memory → Option ℕ → List ℕ
walk zero nodes p = []
walk (suc rounds) nodes none = []
walk (suc rounds) nodes (some p) = p ∷ walk rounds nodes (nodes p).next

-- `clearHandlers`, which is the destructor
abbrev pub forgotten : Node
forgotten = record { attached = false; prev = none; next = none }

unfoldable pub forget : ℕ → Option ℕ → Memory → Memory
forget zero p nodes = nodes
forget (suc rounds) none nodes = nodes
forget (suc rounds) (some p) nodes = forget rounds (nodes p).next (update p (λ _. forgotten) nodes)

unfoldable pub clear_handlers : ℕ → Dispatcher → Dispatcher
unfolding forget
clear_handlers rounds d = record d {
  nodes = forget rounds d.root d.nodes;
  root = none;
  last = none;
}

-- `addComm`, `clearComms`
unfoldable pub add_comm : ℕ → Dispatcher → Dispatcher
add_comm c d = record d { comm_list = d.comm_list ++ c ∷ [] }

unfoldable pub clear_comms : Dispatcher → Dispatcher
clear_comms d = record d { comm_list = [] }

-- `getWaitTime`: the first time that is set, the nearest one, and what is left until then. The times
-- are nanoseconds, of which a millisecond has 1000000; without a time that is set, the source divides
-- by the number of communicators, which is not zero where it is called.
unfoldable pub first_set : List ℕ → ℕ
first_set [] = 0
first_set (t ∷ times) = let later = first_set times in if not (t == 0) then t else later

unfoldable pub nearest : ℕ → List ℕ → ℕ
nearest m [] = m
nearest m (t ∷ times) = nearest (if not (t == 0) && ltb t m then t else m) times

unfoldable pub get_wait_time : ℕ → ℕ → List ℕ → ℕ
unfolding first_set nearest
get_wait_time comms now times =
    let m = nearest (first_set times) times in
    if not (m == 0) then (if ltb m now then 0 else (m - now) / 1000000) else 1000 / comms

-- What the handlers do. A world is all they keep, without the links.
pub record Handling : Type 1 where
  pub World : Type 0
  pub is_requesting : ℕ → World → Bool
  pub listens : ℕ → ℕ → ℕ → World → Bool
  pub handle_incoming : ℕ → List ℕ → ℕ → World → World
  pub process_deferred : ℕ → World → World
  pub process_time_out : ℕ → World → World
  pub deferred_time : ℕ → World → ℕ

-- What a communicator gives: nothing came, or bytes from a remote address.
pub data Incoming : Type 0 where
  nothing_came : Incoming
  message_from : ℕ → List ℕ → Incoming

-- `std::min(getWaitTime(), maxProcessTime)`, and whether the loop is left after a round. The limit is
-- in milliseconds; none is the source's -1.
abbrev pub within : Option ℕ → ℕ → ℕ
within none wait = wait
within (some limit) wait = min wait limit

abbrev pub is_reached : Option ℕ → ℕ → ℕ → Bool
is_reached none start now = false
is_reached (some limit) start now = (limit == 0) || leb (start + limit * 1000000) now

module _ (k : Handling) where
  open k use {World}

  -- The body of the loop of `processComm` for the handler at `p`
  abbrev pub serve : ℕ → List ℕ → ℕ → ℕ → World → World
  serve comm buf address p w =
      if not (k.is_requesting p w)
      then w
      else if k.listens p comm address w
      then k.handle_incoming p buf address w
      else w

  unfoldable pub each : (ℕ → World → World) → ℕ → Memory → Option ℕ → World → World
  each step zero nodes p w = w
  each step (suc rounds) nodes none w = w
  each step (suc rounds) nodes (some p) w = each step rounds nodes (nodes p).next (step p w)

  unfoldable pub process_comm : ℕ → Dispatcher → ℕ → Incoming → World → Bool × World
  unfolding each
  process_comm rounds d comm nothing_came w = (false, w)
  process_comm rounds d comm (message_from address []) w = (true, w)
  process_comm rounds d comm (message_from address (b ∷ buf)) w =
      (true, each (serve comm (b ∷ buf) address) rounds d.nodes d.root w)

  unfoldable pub needs_processing : ℕ → Memory → Option ℕ → World → Bool
  needs_processing zero nodes p w = false
  needs_processing (suc rounds) nodes none w = false
  needs_processing (suc rounds) nodes (some p) w =
      let later = needs_processing rounds nodes (nodes p).next w in
      if k.is_requesting p w then true else later

  -- What the communicators give and the clock shows in one round of `processIncomingMessages`.
  pub record Round : Type 0 where
    pub incoming : ℕ → ℕ → Incoming
    pub wait_from : ℕ
    pub time_after : ℕ

  unfoldable pub process_comms : ℕ → Dispatcher → (ℕ → Incoming) → List ℕ → World → Bool × World
  unfolding process_comm
  process_comms rounds d incoming [] w = (false, w)
  process_comms rounds d incoming (c ∷ comms) w =
      let (here, w') = process_comm rounds d c (incoming c) w in
      let (later, w'') = process_comms rounds d incoming comms w' in (here || later, w'')

  -- How long a round waits; no limit is the greatest number of 64 bits.
  abbrev pub round_wait : ℕ → Dispatcher → Option ℕ → ℕ → World → ℕ
  round_wait rounds d limit now w =
      let wait =
        get_wait_time (length d.comm_list) now
          (map (λ h. k.deferred_time h w) (walk rounds d.nodes d.root)) in
      within limit wait

  -- The body of the loop
  unfoldable pub process_round : ℕ → Dispatcher → Option ℕ → Round → World → Bool × World
  unfolding process_comms each walk get_wait_time
  process_round rounds d limit r w =
      let (processed, w') =
        process_comms rounds d (λ c. r.incoming c (round_wait rounds d limit r.wait_from w))
          d.comm_list w in
      let w'' = each k.process_deferred rounds d.nodes d.root w' in
      (processed, each k.process_time_out rounds d.nodes d.root w'')

  -- `processIncomingMessages`, on as many rounds as the environment gives: nothing if they run out.
  unfoldable pub process_incoming_messages :
      ℕ → Dispatcher → Option ℕ → ℕ → List Round → Bool → World → Option (Bool × World)
  unfolding process_round needs_processing
  process_incoming_messages rounds d limit start [] processed w =
      if needs_processing rounds d.nodes d.root w then none else some (processed, w)
  process_incoming_messages rounds d limit start (r ∷ rs) processed w =
      let (here, w') = process_round rounds d limit r w in
      let rest = process_incoming_messages rounds d limit start rs (processed || here) w' in
      if not (needs_processing rounds d.nodes d.root w)
      then some (processed, w)
      else if is_reached limit start r.time_after
      then some (processed || here, w')
      else rest
