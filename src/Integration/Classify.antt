-- ===== src/Integration/Classify.antt =====
-- `error_classifier.py`: the class of an exception, by its type and then by its texts.
use Prim.Native.Char.{code}
use Prim.Native.String.{String}
use tuya_ble_mesh.Prelude.{ℕ, Bool, true, false, ◌||◌, ◌&&◌, List, [], ◌∷◌, ◌==◌, if◌then◌else◌}
use tuya_ble_mesh.Prelude.{Option, none, some, Error}
use tuya_ble_mesh.Prelude.{authentication_error, crypto_error, sig_mesh_key_error, protocol_error}
use tuya_ble_mesh.Prelude.{mesh_timeout_error, malformed_packet_error, device_not_found_error}
use tuya_ble_mesh.Telink.Connection.Connect.{is_mesh_connection_error}

pub data ErrorClass : Type 0 where
  bridge_down device_offline mesh_auth protocol permanent transient unknown : ErrorClass

-- The characters of a text, as numbers.
abbrev pub codes : String → List ℕ
codes String.[] = []
codes (String.◌∷◌ c s) = code c ∷ codes s

unfoldable pub starts_with : List ℕ → List ℕ → Bool
starts_with [] text = true
starts_with (k ∷ keyword) [] = false
starts_with (k ∷ keyword) (c ∷ text) = (k == c) && starts_with keyword text

-- `keyword in text`
unfoldable pub contains : List ℕ → List ℕ → Bool
unfolding starts_with
contains keyword [] = starts_with keyword []
contains keyword (c ∷ text) = starts_with keyword (c ∷ text) || contains keyword text

-- `any(keyword in text for keyword in keywords)`
unfoldable pub any_in : List String → List ℕ → Bool
unfolding contains
any_in [] text = false
any_in (keyword ∷ keywords) text = contains (codes keyword) text || any_in keywords text

-- An exception: its type, whether that is the built-in `TimeoutError`, the name of its type and its
-- message, both in lower case.
pub record Failure : Type 0 where
  pub exception : Error
  pub is_timeout : Bool
  pub type_name : List ℕ
  pub message : List ℕ

-- The classes that the type alone decides, in the order of the tests.
unfoldable pub type_class : Error → Option ErrorClass
type_class authentication_error = some mesh_auth
type_class crypto_error = some mesh_auth
type_class sig_mesh_key_error = some mesh_auth
type_class mesh_timeout_error = some transient
type_class protocol_error = some protocol
type_class malformed_packet_error = some protocol
type_class device_not_found_error = some device_offline
type_class _ = none

unfoldable pub connection_class : List ℕ → ErrorClass
connection_class message =
    if any_in ("refused" ∷ "unreachable" ∷ "no route" ∷ []) message then bridge_down else transient

-- The second stage, by the texts.
unfoldable pub text_class : Failure → ErrorClass
text_class failure =
    let credentials = "auth" ∷ "password" ∷ "credential" ∷ [] in
    if failure.is_timeout || contains (codes "timeout") failure.message
    then transient
    else if any_in credentials failure.type_name || any_in credentials failure.message
    then mesh_auth
    else if any_in ("protocol" ∷ "version" ∷ []) failure.message
    then protocol
    else if any_in ("connection refused" ∷ "unreachable" ∷ "no route" ∷ []) failure.message
    then bridge_down
    else if contains (codes "not found") failure.message
    then device_offline
    else if any_in ("vendor" ∷ "unsupported" ∷ []) failure.message
    then permanent
    else unknown

unfoldable pub untyped_class : Option ErrorClass → Failure → ErrorClass
unfolding connection_class text_class
untyped_class (some class) failure = class
untyped_class none failure =
    if is_mesh_connection_error failure.exception
    then connection_class failure.message
    else text_class failure

unfoldable pub classify_error : Failure → ErrorClass
unfolding type_class untyped_class
classify_error failure = untyped_class (type_class failure.exception) failure
