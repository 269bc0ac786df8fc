-- ===== src/Audit/Evidence.antt =====
-- internal/audit/chain.go: what a chain that `VerifyChain` accepts tells of its events.
use remote_dev_skillkit.Prelude.{
  ℕ, suc, String, List, [], ◌∷◌, string_eq, nat_eq, ◌≡◌, ◌↔◌, map, arith,
}
use remote_dev_skillkit.Prelude.Int.{int_eq}
use remote_dev_skillkit.Prelude.Errors.{passed, >>=-passed}
use remote_dev_skillkit.ControlPlane.Session.{Time}
use remote_dev_skillkit.Audit.{
  AuditEvent, ChainEntry, Chain, Digests, hash_strings, hash_json, entry_of, export_entries,
  export_chain, verify_entry, verify_entries, verify_chain,
}

abbrev pub events_of : List ChainEntry → List AuditEvent
events_of entries = map (λ e. e.event) entries

module _ (d : Digests) where
  verify_entry-own :
      (n : ℕ) (p : String) (e : AuditEvent) (h : String)
      → hash_json d e ≡ passed h
      → verify_entry d n p (entry_of d p e h) ≡ passed tt
  unfolding verify_entry
  verify_entry-own n p e h eq = ground (arith, eq)

  verify_entry-passed :
      (n : ℕ) (p : String) (e : ChainEntry)
      → verify_entry d n p e ≡ passed tt
      → (h : String) × (hash_json d e.event ≡ passed h) × (e ≡ entry_of d p e.event h)
  unfolding verify_entry
  verify_entry-passed n p e eq = ground (arith, eq)

  verify-export_entries :
      (n : ℕ) (p : String) (events : List AuditEvent) (es : List ChainEntry) (last : String)
      → export_entries d p events ≡ passed (es, last)
      → (verify_entries d n p es ≡ passed last) × (events_of es ≡ events)
  unfolding export_entries verify_entries
  verify-export_entries n p [] es last eq = ground (arith, eq)
  verify-export_entries n p (e ∷ events) es last eq =
      let (h, own, eq₁) = >>=-passed (hash_json d e) _ eq in
      let (rest, tail, eq₂) = >>=-passed (export_entries d (hash_strings d p h) events) _ eq₁ in
      let ih = verify-export_entries (suc n) (hash_strings d p h) events rest.0 rest.1 tail in
      ground (arith, eq₂, ih, verify_entry-own n p e h own)

  export-verify_entries :
      (n : ℕ) (p : String) (es : List ChainEntry) (last : String)
      → verify_entries d n p es ≡ passed last
      → export_entries d p (events_of es) ≡ passed (es, last)
  unfolding export_entries verify_entries
  export-verify_entries n p [] last eq = ground (arith, eq)
  export-verify_entries n p (e ∷ es) last eq =
      let (u, one, eq₁) = >>=-passed (verify_entry d n p e) _ eq in
      let (h, own, entry) = verify_entry-passed n p e one in
      let ih = export-verify_entries (suc n) e.chain_hash es last eq₁ in
      ground (arith, own, entry, ih)

  -- `VerifyChain` accepts a chain just when it is the one that `ExportChain` makes of the events in
  -- it at the time it names: every number, every hash, the count and the schema are then those of
  -- the export.
  pub verify_chain-export :
      (chain : Chain)
      → (verify_chain d chain ≡ passed tt)
        ↔ (export_chain d (events_of chain.entries) chain.generated_at ≡ passed chain)
  unfolding verify_chain export_chain
  verify_chain-export chain = (
    (λ eq. ground (arith, eq, export-verify_entries 1 "" chain.entries chain.root_hash)),
    (λ eq. ground (
      arith,
      eq,
      verify-export_entries 1 "" (events_of chain.entries) chain.entries chain.root_hash,
    )),
  )

  -- A chain that `ExportChain` answers is accepted by `VerifyChain`, and holds the events it was made
  -- of in their order.
  pub export_chain-verify :
      (events : List AuditEvent) (t : Time) (chain : Chain)
      → export_chain d events t ≡ passed chain
      → (verify_chain d chain ≡ passed tt) × (events_of chain.entries ≡ events)
  unfolding verify_chain export_chain
  export_chain-verify events t chain eq =
      ground (arith, eq, verify-export_entries 1 "" events chain.entries chain.root_hash)
