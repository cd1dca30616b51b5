-- ===== src/HidDevice/Inventory/Passes.antt =====
-- The usage scan, item by item.
use fido_go.Base.{
  ℕ, zero, suc, ◌+◌, ◌*◌, ◌/◌, ◌%◌, ◌≤◌, ◌≡◌, refl, [], ◌∷◌, ◌++◌, append_assoc, arith, length,
  take, drop, length-append, take-append, drop-append, Bytes, ok,
}
use fido_go.HidDevice.Descriptor.{little_endian, item_size}
use fido_go.HidDevice.Descriptor.Grammar.{Payload, double, Payload-IsSize, item_size_unique}
use fido_go.HidDevice.Inventory.{Scan, scan_item, scan_items}

-- The scan goes from one state to another over short items, and over long items without a change.
pub data Scans : Bytes → Scan → Scan → Type 0 where
  ends : (s : Scan) → Scans [] s s
  takes :
      (prefix value : ℕ) (payload rest : Bytes) (s m t : Scan)
      → ¬ (prefix ≡ 0xfe)
      → Payload (prefix % 4) payload value
      → scan_item prefix value s ≡ ok m
      → Scans rest m t
      → Scans (prefix ∷ (payload ++ rest)) s t
  skips :
      (tag : ℕ) (payload rest : Bytes) (s t : Scan)
      → Scans rest s t
      → Scans (0xfe ∷ length payload ∷ tag ∷ (payload ++ rest)) s t

pub Scans-scan_items :
    (n : ℕ) (content : Bytes) (s t : Scan)
    → Scans content s t
    → length content ≤ n
    → scan_items n content s ≡ ok t
unfolding scan_items
Scans-scan_items zero _ s t (ends _) k = refl
Scans-scan_items (suc n) _ s t (ends _) k = refl
Scans-scan_items zero _ s t (takes prefix value payload rest _ m _ short v taken later) k =
    absurd (omega arith)
Scans-scan_items (suc n) _ s t (takes prefix value payload rest _ m _ short v taken later) k =
    let (z, same) = Payload-IsSize (prefix % 4) value payload v in
    let size = item_size_unique prefix (length payload) z in
    let whole = length-append payload rest in
    let fits = Scans-scan_items n rest m t later (omega (arith, whole)) in
    let cut : drop (item_size prefix) (payload ++ rest) ≡ rest =
      rw (size) (drop-append (length payload) payload rest refl) in
    let value_is : little_endian (take (item_size prefix) (payload ++ rest)) ≡ value =
      rw (size, take-append (length payload) payload rest refl) same in
    ground (arith, short, size, whole, cut, value_is, taken, fits)
Scans-scan_items zero _ s t (skips tag payload rest _ _ later) k = absurd (omega arith)
Scans-scan_items (suc n) _ s t (skips tag payload rest _ _ later) k =
    let whole = length-append payload rest in
    let two : length payload + 2 ≡ suc (suc (length payload)) = omega arith in
    let over : drop (length payload + 2) (length payload ∷ tag ∷ (payload ++ rest)) ≡ rest =
      rw (two) (drop-append (length payload) payload rest refl) in
    let fits = Scans-scan_items n rest s t later (omega (arith, whole)) in
    ground (arith, whole, over, fits)

-- The scan of these bytes leads from one state to another, whatever follows.
abbrev pub Passes : Bytes → Scan → Scan → Type 0
Passes bs s m = (rest : Bytes) (t : Scan) → Scans rest m t → Scans (bs ++ rest) s t

pub Passes-append :
    (bs cs : Bytes) (s m t : Scan) → Passes bs s m → Passes cs m t → Passes (bs ++ cs) s t
Passes-append bs cs s m t p q rest u h =
    rw (append_assoc bs cs rest) (p (cs ++ rest) u (q rest u h))

-- The four bytes of a value, the low first.
abbrev pub bytes_4 : ℕ → Bytes
bytes_4 n = n % 256 ∷ n / 256 % 256 ∷ n / 65536 % 256 ∷ n / 16777216 ∷ []

pub Payload-bytes_4 : (n : ℕ) → Payload 3 (bytes_4 n) n
Payload-bytes_4 n =
    let same : n % 256
          + 256 * (n / 256 % 256)
          + 65536 * (n / 65536 % 256)
          + 16777216 * (n / 16777216)
        ≡ n =
      omega arith in
    rw (same) at (double (n % 256) (n / 256 % 256) (n / 65536 % 256) (n / 16777216))

-- One short item.
pub item-Passes :
    (prefix value : ℕ) (payload : Bytes) (s m : Scan)
    → ¬ (prefix ≡ 0xfe)
    → Payload (prefix % 4) payload value
    → scan_item prefix value s ≡ ok m
    → Passes (prefix ∷ payload) s m
item-Passes prefix value payload s m short v taken rest t h =
    takes prefix value payload rest s m t short v taken h

pub long-Passes : (tag : ℕ) (long : Bytes) (s : Scan) → Passes (0xfe ∷ length long ∷ tag ∷ long) s s
long-Passes tag long s rest t h = skips tag long rest s t h

pub to_state : (bs : Bytes) {s m t : Scan} → m ≡ t → Passes bs s m → Passes bs s t
to_state _ e h = rw (e) at h
