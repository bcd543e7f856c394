-- ===== src/Queue.antt =====
-- `MessageQueue` of mohpc-lib/Utility/MessageQueue.cpp: at most `num_max_messages` messages are on their
-- way, the others wait. `transmitted` is what was handed to `IMessage::transmit`, the last one at the
-- end; that a message is done is an operation of its own, also if it is done at once.
pub mod Limit
mod Tests
use mohpc.Base.{
  ℕ, zero, suc, ◌+◌, ◌-◌, List, [], ◌∷◌, ◌++◌, Bool, ltb, leb, if◌then◌else◌, add_size, sub_size,
}

pub record MessageQueue (Message : Type 0) : Type 0 where
  pub num_max_messages : ℕ
  pub num_pending_responses : ℕ
  pub message_queue : List Message
  pub done_list : List Message
  pub transmitted : List Message

module _ {Message : Type 0} where
  -- `transmitImmediately`
  unfoldable pub transmit_immediately : Message → MessageQueue Message → MessageQueue Message
  transmit_immediately message q = record q {
    num_pending_responses = add_size q.num_pending_responses 1;
    transmitted = q.transmitted ++ message ∷ [];
  }

  -- `transmit`
  unfoldable pub transmit : Message → MessageQueue Message → MessageQueue Message
  unfolding transmit_immediately
  transmit message q =
      if ltb q.num_pending_responses q.num_max_messages
      then transmit_immediately message q
      else record q { message_queue = q.message_queue ++ message ∷ [] }

  -- `doneWith`
  pub done_with : Message → MessageQueue Message → MessageQueue Message
  done_with message q = record q {
    num_pending_responses = sub_size q.num_pending_responses 1;
    done_list = message ∷ q.done_list;
  }

  -- The loop of `processPendingMessages`: `count` rounds, or until nothing waits.
  pub transmit_queued : ℕ → List Message → MessageQueue Message → MessageQueue Message
  unfolding transmit_immediately
  transmit_queued zero waiting q = record q { message_queue = waiting }
  transmit_queued (suc count) [] q = record q { message_queue = [] }
  transmit_queued (suc count) (message ∷ waiting) q =
      transmit_queued count waiting (transmit_immediately message q)

  -- `processPendingMessages`
  pub process_pending_messages : MessageQueue Message → MessageQueue Message
  unfolding transmit_queued
  process_pending_messages q =
      if leb q.num_max_messages q.num_pending_responses
      then q
      else transmit_queued (q.num_max_messages - q.num_pending_responses) q.message_queue
          (record q { done_list = [] })
