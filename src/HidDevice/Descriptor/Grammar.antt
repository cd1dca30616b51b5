-- ===== src/HidDevice/Descriptor/Grammar.antt =====
-- The descriptors that `Parse` accepts, as sequences of short items.
use fido_go.Base.{
  ℕ, zero, suc, ◌+◌, ◌*◌, ◌%◌, ◌≤◌, ◌<◌, ◌≡◌, refl, ◌↔◌, ◌⊎◌, inl, inr, List, [], ◌∷◌, ◌++◌, arith,
  length, take, drop, length-append, take-append-drop, length-take, length-drop, take-append,
  drop-append, Bytes, Result-cases, ok,
}
use fido_go.HidDevice.Descriptor.{
  Collection, Parser, new_parser, item, item_size, items, little_endian,
}
use fido_go.HidDevice.Descriptor.Layout.{parse, finish}

-- The bytes that follow a prefix with a size code, and their value: 0, 1, 2 or 4 bytes, the low first.
pub data Payload : ℕ → Bytes → ℕ → Type 0 where
  empty : Payload 0 [] 0
  byte : (a : ℕ) → Payload 1 (a ∷ []) a
  word : (a b : ℕ) → Payload 2 (a ∷ b ∷ []) (a + 256 * b)
  double : (a b c d : ℕ) → Payload 3 (a ∷ b ∷ c ∷ d ∷ []) (a + 256 * b + 65536 * c + 16777216 * d)

-- The parser goes from one state to another over whole short items, none with the prefix 0xfe of a long
-- item.
pub data Reads : Bytes → Parser → Parser → Type 0 where
  ends : (p : Parser) → Reads [] p p
  takes :
      (prefix value : ℕ) (payload rest : Bytes) (p m q : Parser)
      → ¬ (prefix ≡ 0xfe)
      → Payload (prefix % 4) payload value
      → item prefix value p ≡ ok m
      → Reads rest m q
      → Reads (prefix ∷ (payload ++ rest)) p q

-- How many bytes go with a size code.
abbrev pub IsSize : ℕ → ℕ → Type 0
IsSize code n = ((n ≡ 4) × (code ≡ 3)) ⊎ ((n ≡ code) × (code < 3))

pub Payload-IsSize :
    (code value : ℕ) (payload : Bytes)
    → Payload code payload value
    → IsSize code (length payload) × (little_endian payload ≡ value)
unfolding little_endian
Payload-IsSize _ _ _ empty = (inr (refl, omega arith), refl)
Payload-IsSize _ _ _ (byte a) = (inr (refl, omega arith), omega arith)
Payload-IsSize _ _ _ (word a b) = (inr (refl, omega arith), omega arith)
Payload-IsSize _ _ _ (double a b c d) = (inl (refl, refl), omega arith)

same_Payload :
    {code code' value value' : ℕ} {payload : Bytes}
    → code ≡ code'
    → value ≡ value'
    → Payload code payload value
    → Payload code' payload value'
same_Payload e h p = rw (e, h) at p

IsSize-Payload :
    (code : ℕ) (bs : Bytes) → IsSize code (length bs) → Payload code bs (little_endian bs)
unfolding little_endian
IsSize-Payload code [] h = same_Payload (ground (arith, h)) refl empty
IsSize-Payload code (a ∷ []) h = same_Payload (ground (arith, h)) (omega arith) (byte a)
IsSize-Payload code (a ∷ b ∷ []) h = same_Payload (ground (arith, h)) (omega arith) (word a b)
IsSize-Payload code (a ∷ b ∷ c ∷ []) h = absurd (ground (arith, h))
IsSize-Payload code (a ∷ b ∷ c ∷ d ∷ []) h =
    same_Payload (ground (arith, h)) (omega arith) (double a b c d)
IsSize-Payload code (a ∷ b ∷ c ∷ d ∷ e ∷ bs) h = absurd (ground (arith, h))

item_size-IsSize : (prefix : ℕ) → IsSize (prefix % 4) (item_size prefix)
unfolding item_size
item_size-IsSize prefix = ground arith

pub item_size_unique : (prefix n : ℕ) → IsSize (prefix % 4) n → item_size prefix ≡ n
unfolding item_size
item_size_unique prefix n h = ground (arith, h)

items-Reads :
    (n : ℕ) (content : Bytes) (p q : Parser)
    → length content ≤ n
    → items n content p ≡ ok q
    → Reads content p q
unfolding items
items-Reads zero [] p q k h = let same : p ≡ q = ground (arith, h) in rw (← same) (ends p)
items-Reads (suc n) [] p q k h = let same : p ≡ q = ground (arith, h) in rw (← same) (ends p)
items-Reads zero (prefix ∷ rest) p q k h = absurd (omega arith)
items-Reads (suc n) (prefix ∷ rest) p q k h =
    let size = item_size prefix in
    let payload = take size rest in
    elim (Result-cases (item prefix (little_endian payload) p)) [
      | inl (_, refused) ↦ absurd (ground (arith, h, refused))
      | inr (m, taken) ↦
          let short : ¬ (prefix ≡ 0xfe) = λ e. ground (arith, h, e) in
          let enough : size ≤ length rest = ground (arith, h, taken) in
          let whole : length payload ≡ size = omega (arith, length-take size rest) in
          let later =
            items-Reads n (drop size rest) m q (omega (arith, length-drop size rest))
              (ground (arith, h, taken)) in
          rw (← take-append-drop size rest) (
            takes prefix (little_endian payload) payload (drop size rest) p m q short
              (IsSize-Payload (prefix % 4) payload (rw (← whole) at (item_size-IsSize prefix)))
              taken later)
    ]

Reads-items :
    (n : ℕ) (content : Bytes) (p q : Parser)
    → Reads content p q
    → length content ≤ n
    → items n content p ≡ ok q
unfolding items
Reads-items zero _ p q (ends _) k = refl
Reads-items (suc n) _ p q (ends _) k = refl
Reads-items zero _ p q (takes prefix value payload rest _ m _ short v taken later) k =
    absurd (omega arith)
Reads-items (suc n) _ p q (takes prefix value payload rest _ m _ short v taken later) k =
    let (s, same) = Payload-IsSize (prefix % 4) value payload v in
    let size = item_size_unique prefix (length payload) s in
    let whole = length-append payload rest in
    rw
      (
        size,
        take-append (length payload) payload rest refl,
        drop-append (length payload) payload rest refl,
        same,
      )
      (ground (arith, short, whole, taken, Reads-items n rest m q later (omega (arith, whole))))

-- A descriptor of 1 to 65536 bytes that is read to its end, with no collection left open and no state left
-- on the stack, and the collections that are made of it.
pub record Accepted (content : Bytes) (cs : List Collection) : Type 0 where
  pub some_bytes : 1 ≤ length content
  pub fits : length content ≤ 65536
  pub last : Parser
  pub read : Reads content new_parser last
  pub closed : last.collections ≡ []
  pub popped : last.stack ≡ []
  pub made : finish last ≡ cs

-- `Parse` accepts exactly the descriptors of 1 to 65536 bytes that are a sequence of whole short items
-- with little-endian values, each accepted in its turn, which close their collections and pop what they
-- push; it returns the collections of the state after the last.
pub parse-Accepted_iff :
    (content : Bytes) (cs : List Collection) → (parse content ≡ ok cs) ↔ Accepted content cs
unfolding parse
parse-Accepted_iff content cs = (to, from)
  where
    to : parse content ≡ ok cs → Accepted content cs
    to h = elim (Result-cases (items (length content) content new_parser)) [
      | inl (_, refused) ↦ absurd (ground (arith, h, refused))
      | inr (p, taken) ↦ record {
        some_bytes = ground (arith, h, taken);
        fits = ground (arith, h, taken);
        last = p;
        read = items-Reads (length content) content new_parser p (omega arith) taken;
        closed = ground (arith, h, taken);
        popped = ground (arith, h, taken);
        made = ground (arith, h, taken);
      }
    ]

    from : Accepted content cs → parse content ≡ ok cs
    from a =
        let taken = Reads-items (length content) content new_parser a.last a.read (omega arith) in
        ground (arith, taken, a.some_bytes, a.fits, a.closed, a.popped, a.made)
