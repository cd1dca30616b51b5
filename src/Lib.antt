-- ===== src/Lib.antt =====
-- fido-go: a Go SDK for FIDO authenticators. A message of CTAP1 or CTAP2 is made by a protocol package,
-- cut into packets by a framing package and exchanged by a transport session.
--
-- Base: shared names, slices as lists over the native numbers, bytes and big-endian integers, results.
-- A byte slice is a list of numbers; a Go (value, error) pair is `Result`, with one constructor for
-- each error of the component. The texts of errors and the chain of wrapped errors are not modelled.
--
-- Wire.Hid (pkg/wire/hid/codec.go): `fragment` is Codec.Fragment, its loop `continuations` on the
-- length of what remains as fuel (each round takes a byte or more, and the round trip shows that nothing
-- is lost); `add` and `payload` are the methods of Assembler. RoundTrip, Order and Accept hold the
-- theorems, Messages the lemmas that readers of packets use.
-- Wire.Ble (pkg/wire/ble/codec.go) and Wire.Nfc (pkg/wire/nfc/apdu.go) likewise; the assembler of
-- Wire.Nfc keeps the body of a refused response, so its `add` returns the state beside the error.
-- The field `total` is -1 before the first packet in the source, and `none` here.
--
-- Ctap1.Apdu, .Version, .Register, .Authenticate (pkg/ctap1): APDU encoding and the three U2F commands.
-- Ctap1.Apdu.Decode is a card's reader after ISO 7816-4, independent of the encoder. The certificate in
-- a registration is read by encoding/asn1 and crypto/x509: they enter as the record CertificateReader,
-- whose one law is that Unmarshal returns the rest of its input. The dynamic check of the response
-- target's type is not modelled.
--
-- Transport.NfcSession (pkg/transport/nfc/backend.go): Session.Exchange over the list of the
-- transceiver's answers; discovery, opening and PC/SC are not modelled.
--
-- Transport.Usb.Reader (pkg/transport/usb/hid_protocol.go, and hidChannelReader of hid_init.go): one
-- message from the stream of input reports. A cancelled context, a closed session and a failed read are
-- all the error answer that ends the call. The functions recur on the list of answers, so that no fuel
-- is needed, and where it ends the call still waits.
--
-- Transport.Usb.State, .Packets, .Handshake, .Commands, .Session (pkg/transport/usb: hid_session.go,
-- hid_exchange.go, hid_init.go, hid_lifetime.go, hid_error.go, hid.go): an open HID session. `State` is
-- hidSession with its progress, the reports that conn.Write was called with, and the answers that
-- conn.Write and conn.Read will give; an action is a function of it that returns nothing where the
-- answers end, since the call then waits. The contexts, the mutex, the timers and rand.Read enter as
-- inputs (`Admission`, `Round`), another goroutine's Close as the error `closed`. `await_init` has a
-- bound on its rounds, one more than the reports that are left; each round takes one of them at least. A
-- nil context of an exchange and the classes that transport.Wrap and classifyHIDError put around an error
-- are not modelled.
--
-- HidDevice.Descriptor, .Layout (pkg/hid/internal/reportdesc/parser.go): `item` is one step of the
-- parser, `items` the loop of Parse on a bound that the data's length meets, `finish` decides which
-- collections can be opened. A map from report IDs to bits is a list in the order of the IDs' first
-- reports; where the source's loop over a map takes another order, its map has two IDs or more, and the
-- collection is not supported.
--
-- Transport.Registry (pkg/transport/registry.go): the map and the slice of its keys are one list of
-- backends in the order of registration; a backend's calls are values of its record.
--
-- HidDevice.Inventory (pkg/hid/internal/reportdesc/inventory.go): Inventory returns the collections
-- beside the error of the layout. The loop of scanUsages has a bound as that of Parse; an item takes
-- a byte or more, so that the data's length is enough.
--
-- Ctap2 (pkg/ctap2): the requests and responses of the six commands, with the checks of Encode and
-- DecodeResponse. Marshal and Unmarshal of the CBOR library are arguments of the functions; a response
-- is decoded into a fresh target. The fields of GetInfo that nothing reads are one field, and PublicKey
-- of a credential-management response is left out. UnmarshalCBOR of GetInfo is a part of Unmarshal here.
--
-- ClientCtap2 (internal/client/ctap2): `Platform` holds what protocol.go and manager.go use of other
-- code: Go's crypto packages, the CBOR library, the invoker and randomness, which act on a world. Protocol
-- has the ciphers of both PIN protocols, Session the shared secret and the tokens, Pins and Credentials
-- and Management the operations of Manager. The loops over an answer's totals recur on the total, that
-- of ChangePIN on its attempts. Authenticator is the other side as CTAP 2.1 states it: it is written over
-- the primitives alone, with key derivation, encryption and checks of its own, and stands for no code of
-- the repository. Protocol.Laws states what is relied on of the ciphers. wipeBytes is not modelled, nor
-- the panic of SetPIN and PinTokenForPermission on a nil GetInfo response.
--
-- HidDevice.Connection (pkg/hid: connection.go, read.go, write.go): each function is a section that runs
-- with the mutex held, on `Connection`, the struct with a count of the cleanups that retireLocked has
-- started; channels that are closed are flags. Writes has the sections of a write, on its pendingWrite.
-- System puts them together: its steps are the sections of the pump, of the callers of Read, Write and
-- Close, of the workers and of the cleanups, in any order, with what the native calls return; a worker
-- ends with the section that completes its write. The class that operationError gives an error is not
-- modelled. HidDevice.Resources (resources.go): reservations, the map's keys as a list; a release is of
-- what was reserved. HidDevice.Reports has the types of report.go.
--
-- Client (pkg/client, pkg/protocol): `Client` holds the exchange of the session behind its middlewares,
-- the invokers of the two families, the interaction handler and what ClientCtap2 takes as parameters. The
-- cache of the capabilities is an argument and a result of each flow; the lock around it is not modelled.
-- New makes it from its options (pkg/middleware), Manage and
-- Surface have the management operations. The texts of prompts and events are left out, and so is the
-- wiping of secrets.
--
-- Not modelled: the native HID drivers and PC/SC, which call operating systems; discovery and opening of
-- devices by the USB, BLE and NFC backends; tracing and locators of pkg/client; the command line tool,
-- the diagnostics and the tools.
mod Base
pub mod Wire
pub mod Ctap1
pub mod Ctap2
pub mod ClientCtap2
pub mod Client
pub mod Transport
pub mod HidDevice
