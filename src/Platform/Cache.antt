-- ===== src/Platform/Cache.antt =====
-- The keys and texts that the program keeps in Redis.
use flash_sale_lab.Base.{
  ℕ, String, ◌≡◌, ◌↔◌, Bool, true, false, ◌&&◌, Option, none, some, arith, not, ◌==◌, str_eq,
  eq_iff,
}
use flash_sale_lab.Platform.Database.{Product}

-- A key: the fixed text of its template, and the number at its end. Each fixed text ends in a colon,
-- so two keys are the same text only if both parts are equal.
pub record Key : Type 0 where
  pub template : String
  pub id : ℕ

abbrev pub key_eq : Key → Key → Bool
key_eq a b = str_eq a.template b.template && a.id == b.id

pub key_eq_iff : (a b : Key) → (key_eq a b ≡ true) ↔ (a ≡ b)
key_eq_iff a b = ground (arith, eq_iff a.template b.template)

-- A value: `JSON.stringify` of a product, or a text that `JSON.parse` does not accept as one.
pub data CacheText : Type 0 where
  product_json : Product → CacheText
  plain : String → CacheText

-- `if (value)` on a string or null: null and the empty text fail the test.
abbrev pub is_truthy : Option CacheText → Bool
is_truthy none = false
is_truthy (some (product_json p)) = true
is_truthy (some (plain s)) = not (str_eq s "")

-- `result === 'OK'`
abbrev pub is_ok_text : Option CacheText → Bool
is_ok_text none = false
is_ok_text (some (product_json p)) = false
is_ok_text (some (plain s)) = str_eq s "OK"
