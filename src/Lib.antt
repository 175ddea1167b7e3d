-- ===== src/Lib.antt =====
-- Models of the Tuya BLE Mesh integration (custom_components/tuya_ble_mesh): the library that
-- speaks to Bluetooth mesh lamps, in two protocols.
--
-- Telink protocol (lib/tuya_ble_mesh/crypto.py and protocol.py). A device is paired with the
-- mesh name and password (Telink/Crypto.antt: make_pair_packet, make_session_key), which
-- yields a session key. Commands are packed, authenticated with a CBC-MAC cut to two bytes and
-- encrypted in counter mode (Telink/Packet.antt: encode_command_packet, decode_command_packet),
-- notifications come back the same way (decrypt_notification), and both carry data points
-- (Telink/DataPoint.antt). The modules under Telink/Crypto, Telink/Packet and Telink/DataPoint
-- hold the theorems, named for what they are about. Telink/Device.antt is the device over them
-- (device.py, device_commands.py), Telink/Queue.antt the queue of commands and its worker
-- (device_dispatcher.py) piece by piece between two points of suspension; Telink/Queue/History.antt
-- has their interleavings. Telink/Connection.antt is the Bluetooth connection below the device
-- (connection.py), with connect cut at its waits (Telink/Connection/Connect.antt) and the writes
-- and probes (Telink/Connection/Traffic.antt).
--
-- Bridge (lib/tuya_ble_mesh/sig_mesh_bridge.py). Bridge.antt has the requests to the daemon and the
-- SIG Mesh device behind it, Bridge/Lamp.antt the Telink lamp behind it. The answers of the daemon
-- are a function of the number of the request.
--
-- Home Assistant side (error_classifier.py, connection_manager.py, coordinator.py). Integration/Classify.antt sorts
-- exceptions by their types and texts, Integration/Manager.antt is the connection manager with its
-- statistics and repair issues, and Integration/Manager/Reconnect.antt its two loops, the
-- reconnection with growing delays and the commands that are tried again, over what their rounds
-- find. Integration/Polling.antt is the interval at which the manager polls the signal strength,
-- Integration/Coordinator.antt the coordinator's state and listeners, Integration/Coordinator/Updates.antt
-- the notifications of the device and Integration/Coordinator/Lifecycle.antt the callbacks of the
-- manager, vendor frames and the staleness watchdog; Integration/Coordinator/Session.antt is its start
-- and stop with the sequence number that it loads and saves. Times are milliseconds.
--
-- SIG Mesh protocol (lib/tuya_ble_mesh/sig_mesh_protocol_codec.py, sig_mesh_crypto.py,
-- sig_mesh_protocol.py). Mesh/Codec.antt has the headers, access messages and vendor frames,
-- Mesh/Ccm.antt the wrappers of AES, Mesh/Keys.antt AES-CMAC and the key derivation,
-- Mesh/Network.antt the network layer with the obfuscated header, and Mesh/Transport.antt the
-- access messages above it, in one piece or in segments.
--
-- Transport of requests (lib/tuya_ble_mesh/transport). Requests/Request.antt has requests and
-- results with their checks, Requests/Correlation.antt the two dictionaries that match responses
-- to requests, with Requests/Correlation/Outstanding.antt as the abstract list of outstanding
-- requests, Requests/Dispatcher.antt the state of the command dispatcher and what each piece of
-- its code between two points of suspension does, Requests/Dispatcher/Retry.antt the attempts of
-- one request, and Requests/Metrics.antt the counters. Interleavings are sequences of steps
-- (Requests/Dispatcher/Limits.antt). Times are numbers of milliseconds and UUIDs are numbers.
--
-- SIG Mesh device (lib/tuya_ble_mesh/sig_mesh_device*.py, ha_sequence.py). Device/State.antt is
-- its state, Device/Receive.antt what a notification of the proxy does to it up to the
-- callbacks, which are events, Device/Send.antt the commands down to the frames that they write,
-- and Device/Sequence.antt the sequence numbers with the store that saves them. The outcome of
-- each write, and what happens while a command waits, are parameters.
--
-- Provisioning (lib/tuya_ble_mesh/sig_mesh_provisioner_exchange.py). Provisioning/Bearer.antt cuts
-- PDUs into segments and puts them together, Provisioning/Exchange.antt is the exchange over the
-- answers of a device, which are a parameter, and Provisioning/Exchange/Peer.antt describes,
-- independently of the code, a device that follows the protocol.
--
-- Conventions. Functions keep the names of the source, without a leading underscore, and the
-- order of their tests. An exception is a value of Error (Prelude/Results.antt), and a function
-- that may raise returns a Result. A byte string is a list of numbers (Bytes.antt); bytes([...]),
-- to_bytes, struct.pack, slices, indexing and zip(strict=True) are written out there with the
-- exceptions that they raise. Integers whose sign the code tests are those of Prelude/Int.antt,
-- the others are natural numbers; & | ^ are the native operations on bits (Bits.antt says what
-- they are in arithmetic).
--
-- Parameters. AES on one block and AES-CCM belong to the package cryptography: they are the
-- records BlockCipher and MeshCipher with the lengths of their results and, for AES-CCM, that
-- decryption undoes encryption. The key agreement on P-256 is a function of the provisioner. Text and its UTF-8 codec are the record Utf8.
--
-- Fuel. The loops over a byte string count rounds: as many as bytes, since every round takes at
-- least one; the loops over blocks of 16 bytes run for the number of blocks. The loops of
-- attempts run for the number of attempts that the code allows.
--
-- Not modelled: Bluetooth and HTTP I/O, the provisioner's connection attempts, what is computed in
-- floating point (percentiles of the metrics, mean response times, jitter), the
-- Home Assistant entities and configuration flows, logging.
pub mod Prelude
pub mod Bits
pub mod Bytes
pub mod Telink
pub mod Mesh
pub mod Requests
pub mod Bridge
pub mod Device
pub mod Integration
pub mod Provisioning
