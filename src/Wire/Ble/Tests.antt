-- ===== src/Wire/Ble/Tests.antt =====
-- Runs of the codec with an MTU of 4, and its theorems at such inputs.
use fido_go.Base.{
  ◌≤◌, ◌≡◌, refl, true, some, List, [], ◌∷◌, arith, length, take, drop, All, Bytes, ◌>>=◌, ok, err,
}
use fido_go.Wire.Ble.Accept.{payload-add_all, declared, fragment_data}
use fido_go.Wire.Ble.RoundTrip.{Fits, add_all-fragment, fragment-Fits}
use fido_go.Wire.Ble.{
  Codec, Assembler, invalid_mtu, invalid_fragment, new_codec, fragment, first_fragment,
  later_fragments, new_assembler, add, add_all, payload,
}

abbrev codec : Codec
codec = record { mtu = 4 }

abbrev message : Bytes
message = 10 ∷ 11 ∷ 12 ∷ 13 ∷ 14 ∷ 15 ∷ 16 ∷ []

abbrev fragments : List Bytes
fragments = (0 ∷ 7 ∷ 10 ∷ 11 ∷ []) ∷ (12 ∷ 13 ∷ 14 ∷ 15 ∷ []) ∷ (16 ∷ []) ∷ []

fragment-message : fragment codec message ≡ ok fragments
unfolding fragment first_fragment later_fragments
fragment-message = refl

abbrev finished : Assembler
finished = record { codec = codec; started = true; done = true; total = some 7; buffer = message }

add_all-fragments : add_all (new_assembler codec) fragments ≡ ok finished
unfolding add_all add new_assembler
add_all-fragments = refl

rejections :
    (new_codec 2 ≡ err invalid_mtu)
    × (add (new_assembler codec) (1 ∷ []) ≡ err invalid_fragment)
    × (add (new_assembler codec) (0 ∷ 1 ∷ 2 ∷ 3 ∷ 4 ∷ []) ≡ err invalid_fragment)
    × (add finished (1 ∷ []) ≡ err invalid_fragment)
unfolding new_codec add new_assembler
rejections = (refl, refl, refl, refl)

add_all-fragment_example :
    (do ps ← fragment codec message; a ← add_all (new_assembler codec) ps; payload a) ≡ ok message
add_all-fragment_example = add_all-fragment codec message (omega arith) (omega arith)

fragment-Fits_example : All (Fits codec) fragments
fragment-Fits_example = fragment-Fits codec message fragments (omega arith) fragment-message

payload-add_all_example :
    All (λ p. length p ≤ 4) fragments
    × (message ≡ take (declared fragments) (drop 2 (fragment_data fragments)))
    × (length message ≡ declared fragments)
unfolding payload
payload-add_all_example = payload-add_all codec fragments finished message add_all-fragments refl
