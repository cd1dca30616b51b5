-- ===== src/HidDevice/Resources/Accounts.antt =====
-- What is reserved is accounted for, within its limits.
use fido_go.Base.{
  ℕ, suc, ◌+◌, ◌-◌, ◌*◌, ◌≤◌, ◌≡◌, refl, ap, inl, inr, true, ◌||◌, List, [], ◌∷◌, arith, ltb, leb,
  Bool-cases, length, Bytes, equal_bytes,
}
use fido_go.HidDevice.Resources.{
  Slot, free, taken, charged, Resources, no_resources, is_reserved, delete, reserve_endpoint,
  release_endpoint, reserve_enumeration, release_enumeration, max_connections, max_native_bytes,
  connection_bytes, enumeration_bytes, Step, Reach, here, next, reserves, releases, takes_slot,
  reserves_enumeration, releases_enumeration,
}

abbrev pub slot_bytes : Slot → ℕ
slot_bytes free = 0
slot_bytes taken = 0
slot_bytes charged = enumeration_bytes

-- The bytes are those of the connections and of the enumeration that are reserved, within the limits.
pub record IsAccounted (r : Resources) : Type 0 where
  pub accounts : r.bytes ≡ connection_bytes * length r.endpoints + slot_bytes r.slot
  pub memory : r.bytes ≤ max_native_bytes
  pub connections : length r.endpoints ≤ max_connections

length-delete :
    (id : Bytes) (ids : List Bytes)
    → is_reserved id ids ≡ true
    → suc (length (delete id ids)) ≡ length ids
unfolding is_reserved delete
length-delete id [] h = ground (arith, h)
length-delete id (other ∷ ids) h = elim (Bool-cases (equal_bytes other id)) [
  | inl e ↦ ground (arith, e)
  | inr e ↦ ground (arith, e, length-delete id ids (ground (arith, e, h)))
]

Step-IsAccounted : {r t : Resources} → IsAccounted r → Step r t → IsAccounted t
unfolding reserve_endpoint release_endpoint reserve_enumeration release_enumeration
Step-IsAccounted {r = r} i (reserves id) = elim (Bool-cases (is_reserved id r.endpoints)) [
  | inl e ↦ let now : (reserve_endpoint id r).1 ≡ r = ground (arith, e) in rw (now) i
  | inr e ↦
      elim (Bool-cases (
        leb max_connections (length r.endpoints)
        || ltb (max_native_bytes - connection_bytes) r.bytes)) [
          | inl f ↦ let now : (reserve_endpoint id r).1 ≡ r = ground (arith, e, f) in rw (now) i
          | inr f ↦
              let now : (reserve_endpoint id r).1
                  ≡ record r { endpoints = id ∷ r.endpoints; bytes = r.bytes + connection_bytes } =
                ground (arith, e, f) in
              rw (now) (record {
                accounts = omega (arith, i.accounts);
                memory = ground (arith, f);
                connections = ground (arith, f);
              })
        ]
]
Step-IsAccounted {r = r} i (releases id e) =
    let less = length-delete id r.endpoints e in
    record {
      accounts = omega (arith, i.accounts, less);
      memory = omega (arith, i.memory);
      connections = omega (arith, i.connections, less);
    }
Step-IsAccounted {r = r} i (takes_slot e) = record {
  accounts = ground (arith, i.accounts, ap slot_bytes e);
  memory = i.memory;
  connections = i.connections;
}
Step-IsAccounted {r = r} i (reserves_enumeration e) =
    elim (Bool-cases (ltb (max_native_bytes - enumeration_bytes) r.bytes)) [
      | inl f ↦
          let now : (reserve_enumeration r).1 ≡ record r { slot = free } = ground (arith, f) in
          rw (now) (record {
            accounts = ground (arith, i.accounts, ap slot_bytes e);
            memory = i.memory;
            connections = i.connections;
          })
      | inr f ↦
          let now : (reserve_enumeration r).1
              ≡ record r { bytes = r.bytes + enumeration_bytes; slot = charged } =
            ground (arith, f) in
          rw (now) (record {
            accounts = omega (arith, i.accounts, ap slot_bytes e);
            memory = ground (arith, f);
            connections = i.connections;
          })
    ]
Step-IsAccounted {r = r} i (releases_enumeration e) = record {
  accounts = omega (arith, i.accounts, ap slot_bytes e);
  memory = omega (arith, i.memory);
  connections = i.connections;
}

-- After any reservations and releases of what is reserved, the bytes are 768 KiB for each connection and
-- 16 MiB for the enumeration that is reserved, at most 64 MiB, and at most 64 connections are reserved.
pub Reach-IsAccounted : (r : Resources) → Reach no_resources r → IsAccounted r
Reach-IsAccounted _ here = record {
  accounts = refl;
  memory = omega arith;
  connections = omega arith;
}
Reach-IsAccounted r (next reached step) = Step-IsAccounted (Reach-IsAccounted _ reached) step
