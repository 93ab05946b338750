-- ===== src/Platform/Broker.antt =====
-- The queues of RabbitMQ, and what a message on them carries.
use flash_sale_lab.Base.{ℕ, String, Option, none, some}

pub data Queue : Type 0 where
  order_notification : Queue
  order_notification_dlq : Queue
  order_notification_retry : Queue
  order_notification_processing_retry : Queue

-- The text of a message: `JSON.stringify` of an order's id and its request's id, or a text that
-- `JSON.parse` refuses. Other JSON is on no queue of the program.
pub data Content : Type 0 where
  notification : ℕ → String → Content
  malformed : String → Content

-- `headers`: the three that the program reads or writes, each perhaps absent, and the others, which it
-- passes on. The counts are numbers, as the program writes them.
pub record Headers : Type 0 where
  pub retry_count : Option ℕ
  pub processing_retry_count : Option ℕ
  pub dlq_reason : Option String
  pub others : Option String

abbrev pub no_headers : Headers
no_headers = record {
  retry_count = none;
  processing_retry_count = none;
  dlq_reason = none;
  others = none;
}

-- A `ConsumeMessage` of amqplib, with the tag by which it is settled.
pub record Delivery : Type 0 where
  pub tag : ℕ
  pub content : Content
  pub headers : Option Headers

-- `...message.properties.headers`, which spreads to nothing where there are none
abbrev pub spread : Option Headers → Headers
spread none = no_headers
spread (some h) = h

-- `Number(headers?.[name] ?? 0)`
abbrev pub count_or_zero : Option ℕ → ℕ
count_or_zero none = 0
count_or_zero (some n) = n
