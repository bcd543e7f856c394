-- ===== src/Queue/Tests.antt =====
-- A queue of messages that are numbers.
use mohpc.Base.{ℕ, ◌-◌, ◌≤◌, arith, List, [], ◌∷◌}
use mohpc.Queue.{MessageQueue, process_pending_messages}
use mohpc.Queue.Limit.{Event, transmits, is_done, processes, Sent, process_pending_messages_lem}

abbrev two_at_once : MessageQueue ℕ
two_at_once = record {
  num_max_messages = 2;
  num_pending_responses = 0;
  message_queue = [];
  done_list = [];
  transmitted = [];
}

abbrev filled : MessageQueue ℕ
filled = record two_at_once { num_pending_responses = 1; message_queue = 7 ∷ 8 ∷ 9 ∷ [] }

process_pending_messages_lem_example :
    Sent (2 - 1) (7 ∷ 8 ∷ 9 ∷ []) filled (process_pending_messages filled)
    × ((process_pending_messages filled).num_pending_responses ≤ 2)
process_pending_messages_lem_example =
    process_pending_messages_lem filled (omega arith) (omega arith)

abbrev events : List (Event ℕ)
events = transmits 1 ∷ transmits 2 ∷ transmits 3 ∷ is_done 1 ∷ processes ∷ []
