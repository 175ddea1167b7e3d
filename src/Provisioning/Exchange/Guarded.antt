-- ===== src/Provisioning/Exchange/Guarded.antt =====
-- The provisioner sends its keys only to a device whose confirmation it has verified.
use tuya_ble_mesh.Prelude.{
  ◌≡◌, ◌≢◌, ◌⊎◌, inl, inr, refl, ap, ◌∙◌, arith, Bool, true, false, Option, none, some, List, [],
  ◌∷◌, ◌++◌,
}
use tuya_ble_mesh.Prelude.{All, Result, ok, err, Error, provisioning_error, drop}
use tuya_ble_mesh.Bytes.{Bytes, zeros, bytes_equal}
use tuya_ble_mesh.Mesh.Ccm.{MeshCipher}
use tuya_ble_mesh.Mesh.Keys.{aes_cmac, s1, k1}
use tuya_ble_mesh.Provisioning.Data.{Provisioner}
use tuya_ble_mesh.Provisioning.Exchange.{
  Exchange, ProvisioningResult, go_on, require, send_prov, recv_prov,
}
use tuya_ble_mesh.Provisioning.Exchange.{invite, exchange_public_keys, confirm, run_exchange}
use tuya_ble_mesh.Provisioning.Exchange.{invite_params, start_params, shared_secret, prck}

-- No Data PDU was sent.
abbrev pub NoData : List Bytes → Type 0
NoData = All (λ (pdu : Bytes). (rest : Bytes) → pdu ≢ 0x07 ∷ rest)

bytes_equal-eq : (a b : Bytes) → bytes_equal a b ≡ true → a ≡ b
bytes_equal-eq [] [] h = refl
bytes_equal-eq [] (y ∷ b) h = ground (arith, h)
bytes_equal-eq (x ∷ a) [] h = ground (arith, h)
bytes_equal-eq (x ∷ a) (y ∷ b) h = ground (arith, h, bytes_equal-eq a b)

NoData-append :
    (sent : List Bytes) (pdu : Bytes)
    → NoData sent
    → ((rest : Bytes) → pdu ≢ 0x07 ∷ rest)
    → NoData (sent ++ (pdu ∷ []))
NoData-append [] pdu h k = (k, tt)
NoData-append (x ∷ sent) pdu (here, h) k = (here, NoData-append sent pdu h k)

-- One step of the exchange: what holds of the end holds if it holds where the step raises, and where
-- the rest goes on with its value.
module _ {ℓ} {B : Type ℓ} (P : List Bytes × Result B → Type 0) where
  send-step :
      (sent : List Bytes) (pdu : Bytes) (next : Exchange B)
      → P (next (sent ++ (pdu ∷ [])))
      → P (go_on (λ _. next) (send_prov pdu sent))
  unfolding go_on send_prov
  send-step sent pdu next h = h

  lift-step {κ} :
      {A : Type κ} (sent : List Bytes) (r : Result A) (next : A → Exchange B)
      → ((e : Error) → P (sent, err e))
      → ((a : A) → r ≡ ok a → P (next a sent))
      → P (go_on next (sent, r))
  unfolding go_on
  lift-step sent (err e) next raises returns = raises e
  lift-step sent (ok a) next raises returns = returns a refl

  require-step :
      (sent : List Bytes) (b : Bool) (next : Exchange B)
      → ((e : Error) → P (sent, err e))
      → (b ≡ true → P (next sent))
      → P (go_on (λ _. next) (require b sent))
  unfolding go_on
  require-step sent true next raises returns = returns refl
  require-step sent false next raises returns = raises provisioning_error

  receive-step :
      (device : List Bytes → Option Bytes) (sent : List Bytes) (next : Bytes → Exchange B)
      → ((e : Error) → P (sent, err e))
      → ((pdu : Bytes) → device sent ≡ some pdu → P (next pdu sent))
      → P (go_on next (recv_prov device sent))
  unfolding go_on recv_prov
  receive-step device sent next raises returns = answered (device sent) refl
    where
      answered :
          (answer : Option Bytes)
          → device sent ≡ answer
          → P (go_on next (sent, elim answer [ none ↦ err provisioning_error | some pdu ↦ ok pdu ]))
      answered none h = raises provisioning_error
      answered (some pdu) h = returns pdu h

-- The PDUs that come before the answers with the capabilities and with the public key.
abbrev pub invited : List Bytes
invited = (0x00 ∷ invite_params) ∷ []

abbrev pub offered : Provisioner → List Bytes
offered p = (0x00 ∷ invite_params) ∷ (0x02 ∷ start_params) ∷ (0x03 ∷ p.our_pub_key_bytes) ∷ []

module _ (cipher : MeshCipher) (device : List Bytes → Option Bytes) where
  -- The device answered our confirmation with its own, and our random number with the one that its
  -- confirmation is the MAC of.
  pub record Verified (key : Bytes) (sent : List Bytes) (our_random : Bytes) : Type 0 where
    pub our_confirmation : Bytes
    pub confirmation : Bytes
    pub random : Bytes
    pub committed : aes_cmac cipher key (our_random ++ zeros 16) ≡ ok our_confirmation
    pub confirmed : device (sent ++ ((0x05 ∷ our_confirmation) ∷ [])) ≡ some confirmation
    pub revealed :
        device ((sent ++ ((0x05 ∷ our_confirmation) ∷ [])) ++ ((0x06 ∷ our_random) ∷ []))
        ≡ some random
    pub is_mac : aes_cmac cipher key (drop 1 random ++ zeros 16) ≡ ok (drop 1 confirmation)

  -- The confirmation key of the exchange: from the secret that is shared with the public key that the
  -- device answered, and from the PDUs that were exchanged.
  pub record Authenticated (p : Provisioner) (our_random : Bytes) : Type 0 where
    pub capabilities : Bytes
    pub public_key : Bytes
    pub secret : Bytes
    pub salt : Bytes
    pub key : Bytes
    pub capable : device invited ≡ some capabilities
    pub keyed : device (offered p) ≡ some public_key
    pub agreed : shared_secret p (drop 1 public_key) ≡ ok secret
    pub salted :
        s1 cipher (
          invite_params
          ++ drop 1 capabilities
          ++ start_params
          ++ p.our_pub_key_bytes
          ++ drop 1 public_key)
        ≡ ok salt
    pub derived : k1 cipher secret salt prck ≡ ok key
    pub verified_with : Verified key (offered p) our_random

  -- The two ends of a part of the exchange that comes before the data.
  invite-cases :
      (P : List Bytes × Result Bytes → Type 0)
      → ((e : Error) → P (invited, err e))
      → ((pdu : Bytes)
          → device invited ≡ some pdu
          → P (invited ++ ((0x02 ∷ start_params) ∷ []), ok (drop 1 pdu)))
      → P (invite cipher device [])
  unfolding invite
  invite-cases P raises returns = send-step P [] _ _ (
      receive-step P device _ _ raises
        λ pdu answer. lift-step P _ _ _ raises λ u _. send-step P _ _ _ (returns pdu answer))

  keys-cases :
      (p : Provisioner) (P : List Bytes × Result Bytes → Type 0)
      → ((e : Error) → P (offered p, err e))
      → ((pdu : Bytes) → device (offered p) ≡ some pdu → P (offered p, ok (drop 1 pdu)))
      → P (exchange_public_keys cipher device p (invited ++ ((0x02 ∷ start_params) ∷ [])))
  unfolding exchange_public_keys
  keys-cases p P raises returns = send-step P _ _ _ (
      receive-step P device _ _ raises λ pdu answer.
        lift-step P _ _ _ raises λ u _. require-step P _ _ _ raises λ _. returns pdu answer)

  confirm-cases :
      (key our_random : Bytes) (sent : List Bytes) (P : List Bytes × Result Bytes → Type 0)
      → ((after : List Bytes) (e : Error) → NoData after → P (after, err e))
      → ((after : List Bytes) (a : Bytes) → Verified key sent our_random → P (after, ok a))
      → NoData sent
      → P (confirm cipher device key our_random sent)
  unfolding confirm
  confirm-cases key our_random sent P raises returns quiet =
      lift-step P sent _ _ (λ e. raises sent e quiet)
        λ ours committed.
          let asked = sent ++ ((0x05 ∷ ours) ∷ []) in
          let unasked = NoData-append sent (0x05 ∷ ours) quiet (λ rest e. ground (arith, e)) in
          let opened = asked ++ ((0x06 ∷ our_random) ∷ []) in
          let unopened =
            NoData-append asked (0x06 ∷ our_random) unasked (λ rest e. ground (arith, e)) in
          send-step P sent _ _ (
            receive-step P device asked _ (λ e. raises asked e unasked)
              λ theirs confirmed.
                lift-step P asked _ _ (λ e. raises asked e unasked)
                  λ u _. send-step P asked _ _ (
                    receive-step P device opened _ (λ e. raises opened e unopened)
                      λ number revealed.
                        lift-step P opened _ _ (λ e. raises opened e unopened)
                          λ v _.
                            lift-step P opened _ _ (λ e. raises opened e unopened)
                              λ expected mac.
                                require-step P opened _ _ (λ e. raises opened e unopened)
                                  λ equal. returns opened _ (record {
                                    our_confirmation = ours;
                                    confirmation = theirs;
                                    random = number;
                                    committed = committed;
                                    confirmed = confirmed;
                                    revealed = revealed;
                                    is_mac =
                                        mac ∙ ap ok (bytes_equal-eq expected (drop 1 theirs) equal);
                                  })))

  -- The parts of the exchange, each as one step of it.
  module _ {ℓ} {B : Type ℓ} (P : List Bytes × Result B → Type 0) where
    invite-step :
        (next : Bytes → Exchange B)
        → ((e : Error) → P (invited, err e))
        → ((pdu : Bytes)
            → device invited ≡ some pdu
            → P (next (drop 1 pdu) (invited ++ ((0x02 ∷ start_params) ∷ []))))
        → P (go_on next (invite cipher device []))
    unfolding go_on
    invite-step next raises returns = invite-cases (λ t. P (go_on next t)) raises returns

    keys-step :
        (p : Provisioner) (next : Bytes → Exchange B)
        → ((e : Error) → P (offered p, err e))
        → ((pdu : Bytes) → device (offered p) ≡ some pdu → P (next (drop 1 pdu) (offered p)))
        → P (
            go_on next
              (exchange_public_keys cipher device p (invited ++ ((0x02 ∷ start_params) ∷ []))))
    unfolding go_on
    keys-step p next raises returns = keys-cases p (λ t. P (go_on next t)) raises returns

    confirm-step :
        (key our_random : Bytes) (sent : List Bytes) (next : Bytes → Exchange B)
        → ((after : List Bytes) (e : Error) → NoData after → P (after, err e))
        → ((after : List Bytes) (a : Bytes) → Verified key sent our_random → P (next a after))
        → NoData sent
        → P (go_on next (confirm cipher device key our_random sent))
    unfolding go_on
    confirm-step key our_random sent next raises returns =
        confirm-cases key our_random sent (λ t. P (go_on next t)) raises returns

  quiet_invited : NoData invited
  quiet_invited = ((λ rest e. ground (arith, e)), tt)

  quiet_offered : (p : Provisioner) → NoData (offered p)
  quiet_offered p = (
    (λ rest e. ground (arith, e)),
    ((λ rest e. ground (arith, e)), ((λ rest e. ground (arith, e)), tt)),
  )

  -- Whatever the device answers: the provisioner sends no Data PDU, which carries the network key, or
  -- the device had answered our confirmation with its own and our random number with one of which its
  -- confirmation is the MAC. The key of the MAC comes from the secret shared with the public key that
  -- the device had answered to ours, and from our PDUs, the capabilities that the device had answered
  -- to the invitation, and both public keys.
  pub run_exchange-guards :
      (p : Provisioner) (random : Bytes)
      → NoData (run_exchange cipher device p random []).0 ⊎ Authenticated p random
  unfolding run_exchange
  run_exchange-guards p random =
      let P = λ (t : List Bytes × Result ProvisioningResult). NoData t.0 ⊎ Authenticated p random in
      let lost : (e : Error) → P (offered p, err e) = λ e. inl (quiet_offered p) in
      invite-step P _ (λ e. inl quiet_invited)
        λ caps capable. keys-step P p _ lost λ dev_key keyed.
          lift-step P (offered p) _ _ lost λ secret agreed.
            lift-step P (offered p) _ _ lost λ salt salted.
              lift-step P (offered p) _ _ lost λ key derived.
                confirm-step P key random (offered p) _ (λ after e quiet. inl quiet)
                  (λ after a verified. inr (record {
                    capabilities = caps;
                    public_key = dev_key;
                    secret = secret;
                    salt = salt;
                    key = key;
                    capable = capable;
                    keyed = keyed;
                    agreed = agreed;
                    salted = salted;
                    derived = derived;
                    verified_with = verified;
                  }))
                  (quiet_offered p)
