-- ===== src/Ledgers/Encoding.antt =====
-- What the contracts read in the parameters that custodian_entrypoints.go and fa2_entrypoints.go
-- send.
use x4c.Base.{ℕ, String, ◌≡◌, List, [], ◌∷◌, ok, refl, string_eq}
use x4c.Base.Int.{pos}
use x4c.Base.Text.{to_bytes}
use x4c.Host.{Host, d_elt}
use x4c.Tzclient.{Contract}
use x4c.Contracts.Michelson.{
  Michelson, read_pair, read_seq, read_pair-new_pair, read_seq-new_seq_one, read_seq-new_seq_two,
  read_as-eq-ok,
}
use x4c.Contracts.Custodian
use x4c.Contracts.Custodian.Parameters.{
  read_token, read_transfer, read_transfer_to, read_retire, read_retire_data,
}
use x4c.Contracts.Fa2
use x4c.Contracts.Fa2.Parameters.{read_mint_data, read_token_metadata, read_entry}
use x4c.Ledgers.Entrypoints.{
  internal_mint_parameters, internal_transfer_parameters, retire_parameters, mint_parameters,
  add_token_parameters,
}

module _ (H : Host) (M : Michelson H) where
  open M use {
    as_string, as_bytes, as_nat, as_string-new_string, as_bytes-new_bytes, as_nat-new_nat,
    as_code-binary,
  }

  abbrev pub kyc_bytes : String → List ℕ
  kyc_bytes kyc = H.pack (H.new_string kyc)

  -- The custodian contract reads the parameters of a retirement as the retirement of the amount of
  -- the token for the packed KYC text, with the bytes of the reason.
  pub retire_parameters-read :
      (token_address : Contract H) (token_id : ℕ) (kyc : String) (amount : ℕ) (reason : String)
      → Custodian.Parameters.read_entrypoint M
          (retire_parameters H token_address (pos token_id) kyc (pos amount) reason)
        ≡ ok (
            Custodian.Types.Entrypoint.retire (
              record {
                token_address = H.address_string token_address.address;
                txs =
                    record {
                      retiring_party_kyc = kyc_bytes kyc;
                      token_id = token_id;
                      amount = amount;
                      retiring_data = to_bytes reason;
                    }
                    ∷ [];
              }
              ∷ []))
  unfolding Custodian.Parameters.read_entrypoint retire_parameters
  retire_parameters-read token_address token_id kyc amount reason = read_as-eq-ok _ (
      read_seq-new_seq_one M (read_retire M) (
        read_as-eq-ok _ (
          read_pair-new_pair M as_string (read_seq M (read_retire_data M)) (as_string-new_string _)
            (read_seq-new_seq_one M (read_retire_data M) (
              read_as-eq-ok _ (
                read_pair-new_pair M (read_pair M as_nat as_bytes) (read_pair M as_bytes as_nat)
                  (read_pair-new_pair M as_nat as_bytes (as_nat-new_nat amount)
                    (as_bytes-new_bytes _))
                  (read_pair-new_pair M as_bytes as_nat (as_bytes-new_bytes _)
                    (as_nat-new_nat token_id))))))))

  -- It reads the parameters of a transfer as one transfer between the packed KYC texts.
  pub internal_transfer_parameters-read :
      (token_address : Contract H) (token_id amount : ℕ) (current_kyc new_kyc : String)
      → Custodian.Parameters.read_entrypoint M (
          internal_transfer_parameters H token_address
            (pos token_id)
            (pos amount)
            current_kyc
            new_kyc)
        ≡ ok (
            Custodian.Types.Entrypoint.internal_transfer (
              record {
                from_ = kyc_bytes current_kyc;
                token_address = H.address_string token_address.address;
                txs = record { to_ = kyc_bytes new_kyc; token_id = token_id; amount = amount } ∷ [];
              }
              ∷ []))
  unfolding Custodian.Parameters.read_entrypoint internal_transfer_parameters
  internal_transfer_parameters-read token_address token_id amount current_kyc new_kyc =
      read_as-eq-ok _ (
        read_seq-new_seq_one M (read_transfer M) (
          read_as-eq-ok _ (
            read_pair-new_pair M as_bytes (read_pair M as_string (read_seq M (read_transfer_to M)))
              (as_bytes-new_bytes _)
              (read_pair-new_pair M as_string (read_seq M (read_transfer_to M))
                (as_string-new_string _)
                (read_seq-new_seq_one M (read_transfer_to M) (
                  read_as-eq-ok _ (
                    read_pair-new_pair M as_bytes (read_pair M as_nat as_nat) (as_bytes-new_bytes _)
                      (read_pair-new_pair M as_nat as_nat (as_nat-new_nat token_id)
                        (as_nat-new_nat amount)))))))))

  -- It reads the parameters of a mint as a mint of the token.
  pub internal_mint_parameters-read :
      (token_address : Contract H) (token_id : ℕ)
      → Custodian.Parameters.read_entrypoint M
          (internal_mint_parameters H token_address (pos token_id))
        ≡ ok (
            Custodian.Types.Entrypoint.internal_mint (
              record { token_address = H.address_string token_address.address; token_id = token_id }
              ∷ []))
  unfolding Custodian.Parameters.read_entrypoint internal_mint_parameters
  internal_mint_parameters-read token_address token_id = read_as-eq-ok _ (
      read_seq-new_seq_one M (read_token M) (
        read_as-eq-ok _ (
          read_pair-new_pair M as_string as_nat (as_string-new_string _)
            (as_nat-new_nat token_id))))

  -- The FA2 contract reads the parameters of a mint as the mint of the amount for the owner.
  pub mint_parameters-read :
      (token_id : ℕ) (token_owner : H.Address) (amount : ℕ)
      → Fa2.Parameters.read_entrypoint M (mint_parameters H (pos token_id) token_owner (pos amount))
        ≡ ok (
            Fa2.Types.Entrypoint.mint (
              record { owner = H.address_string token_owner; token_id = token_id; qty = amount }
              ∷ []))
  unfolding Fa2.Parameters.read_entrypoint mint_parameters
  mint_parameters-read token_id token_owner amount = read_as-eq-ok _ (
      read_seq-new_seq_one M (read_mint_data M) (
        read_as-eq-ok _ (
          read_pair-new_pair M (read_pair M as_string as_nat) as_nat
            (read_pair-new_pair M as_string as_nat (as_string-new_string _) (as_nat-new_nat amount))
            (as_nat-new_nat token_id))))

  entry-read :
      (key value : String)
      → read_entry M (H.binary d_elt (H.new_string key ∷ H.new_bytes (to_bytes value) ∷ []))
        ≡ ok (key, to_bytes value)
  entry-read key value =
      rw (as_code-binary _ _, as_string-new_string key, as_bytes-new_bytes (to_bytes value)) refl

  -- It reads the parameters of a new token as its metadata: the bytes of its title and its URL.
  pub add_token_parameters-read :
      (token_id : ℕ) (title url : String)
      → Fa2.Parameters.read_entrypoint M (add_token_parameters H (pos token_id) title url)
        ≡ ok (
            Fa2.Types.Entrypoint.add_token_id (
              record {
                token_id = token_id;
                token_info = ("title", to_bytes title) ∷ ("url", to_bytes url) ∷ [];
              }
              ∷ []))
  unfolding Fa2.Parameters.read_entrypoint add_token_parameters
  add_token_parameters-read token_id title url = read_as-eq-ok _ (
      read_seq-new_seq_one M (read_token_metadata M) (
        read_as-eq-ok _ (
          read_pair-new_pair M as_nat (read_seq M (read_entry M)) (as_nat-new_nat token_id) (
            read_seq-new_seq_two M (read_entry M) (entry-read "title" title)
              (entry-read "url" url)))))

-- The contracts read what the Go code sends as the calls that were asked for, with addresses as
-- their texts, KYC texts packed, and other texts as their bytes.
module _ (H : Host) (M : Michelson H) where
  -- The custodian contract reads the parameters of a retirement, of a transfer and of a mint, as the
  -- one retirement of the amount for the KYC text, the one transfer between the KYC texts, and the
  -- mint of the token.
  pub custodian_parameters-read :
      (token_address : Contract H) (token_id amount : ℕ) (kyc new_kyc reason : String)
      → (Custodian.Parameters.read_entrypoint M
            (retire_parameters H token_address (pos token_id) kyc (pos amount) reason)
          ≡ ok (
              Custodian.Types.Entrypoint.retire (
                record {
                  token_address = H.address_string token_address.address;
                  txs =
                      record {
                        retiring_party_kyc = kyc_bytes H M kyc;
                        token_id = token_id;
                        amount = amount;
                        retiring_data = to_bytes reason;
                      }
                      ∷ [];
                }
                ∷ [])))
        × (Custodian.Parameters.read_entrypoint M
              (internal_transfer_parameters H token_address (pos token_id) (pos amount) kyc new_kyc)
            ≡ ok (
                Custodian.Types.Entrypoint.internal_transfer (
                  record {
                    from_ = kyc_bytes H M kyc;
                    token_address = H.address_string token_address.address;
                    txs =
                        record { to_ = kyc_bytes H M new_kyc; token_id = token_id; amount = amount }
                        ∷ [];
                  }
                  ∷ [])))
        × (Custodian.Parameters.read_entrypoint M
              (internal_mint_parameters H token_address (pos token_id))
            ≡ ok (
                Custodian.Types.Entrypoint.internal_mint (
                  record {
                    token_address = H.address_string token_address.address;
                    token_id = token_id;
                  }
                  ∷ [])))
  custodian_parameters-read token_address token_id amount kyc new_kyc reason = (
    retire_parameters-read H M token_address token_id kyc amount reason,
    internal_transfer_parameters-read H M token_address token_id amount kyc new_kyc,
    internal_mint_parameters-read H M token_address token_id,
  )

  -- The FA2 contract reads the parameters of a mint as the mint of the amount for the owner, and those
  -- of a new token as its metadata, with the title and the URL.
  pub fa2_parameters-read :
      (token_id : ℕ) (token_owner : H.Address) (amount : ℕ) (title url : String)
      → (Fa2.Parameters.read_entrypoint M
            (mint_parameters H (pos token_id) token_owner (pos amount))
          ≡ ok (
              Fa2.Types.Entrypoint.mint (
                record { owner = H.address_string token_owner; token_id = token_id; qty = amount }
                ∷ [])))
        × (Fa2.Parameters.read_entrypoint M (add_token_parameters H (pos token_id) title url)
            ≡ ok (
                Fa2.Types.Entrypoint.add_token_id (
                  record {
                    token_id = token_id;
                    token_info = ("title", to_bytes title) ∷ ("url", to_bytes url) ∷ [];
                  }
                  ∷ [])))
  fa2_parameters-read token_id token_owner amount title url = (
    mint_parameters-read H M token_id token_owner amount,
    add_token_parameters-read H M token_id title url,
  )
