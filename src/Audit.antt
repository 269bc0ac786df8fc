-- ===== src/Audit.antt =====
-- internal/audit/chain.go and internal/model/audit.go: the hash chain over the audit events.
-- SHA-256 in hexadecimal and `json.Marshal` of an event are arguments. Times are instants.
use Prim.Native.String.{◌++◌ as join}
use mathlib.Core.Option.{map}
pub mod Evidence
pub mod Tampering
use remote_dev_skillkit.Prelude.{
  ℕ, suc, String, Bool, Option, none, some, List, [], ◌∷◌, ℤ, ◌!=◌, string_eq, nat_eq,
  if◌then◌else◌, length, ◌≡◌,
}
use remote_dev_skillkit.Prelude.Int.{int_eq}
use remote_dev_skillkit.Prelude.Errors.{Checked, passed, refused, required, refuse_if, ◌>>=◌, ◌>>◌}
use remote_dev_skillkit.ControlPlane.Session.{Time}

pub record AuditEvent : Type 0 where
  pub sequence : ℤ
  pub actor : String
  pub action : String
  pub target_id : String
  pub message : String
  pub at : Time

pub record ChainEntry : Type 0 where
  pub sequence : ℤ
  pub previous_hash : String
  pub event_hash : String
  pub chain_hash : String
  pub event : AuditEvent

pub record Chain : Type 0 where
  pub schema_version : String
  pub generated_at : Time
  pub event_count : ℕ
  pub root_hash : String
  pub entries : List ChainEntry

pub data ChainError : Type 0 where
  unsupported_schema : String → ChainError
  count_mismatch : ChainError
  -- The number of the entry, from 1.
  previous_mismatch : ℕ → ChainError
  sequence_mismatch : ℕ → ChainError
  encoding_failed : ChainError
  event_mismatch : ℤ → ChainError
  chain_mismatch : ℤ → ChainError
  root_mismatch : ChainError

abbrev pub chain_schema_version : String
chain_schema_version = "rdev.audit-chain.v1"

-- The encodings of the standard library.
pub record Digests : Type 0 where
  pub sha256_hex : String → String
  pub marshal : AuditEvent → Option String

module _ (d : Digests) where
  unfoldable pub digest : String → String
  digest content = join "sha256:" (d.sha256_hex content)

  -- Every value is written with a zero byte after it.
  unfoldable pub hash_strings : String → String → String
  hash_strings a b = digest (join a (join "\0" (join b "\0")))

  unfoldable pub hash_json : AuditEvent → Checked ChainError String
  hash_json event = required (map digest (d.marshal event)) encoding_failed

  -- The entry that `ExportChain` makes of an event and its hash.
  abbrev pub entry_of : String → AuditEvent → String → ChainEntry
  entry_of previous event event_hash = record {
    sequence = event.sequence;
    previous_hash = previous;
    event_hash = event_hash;
    chain_hash = hash_strings previous event_hash;
    event = event;
  }

  -- The loop of `ExportChain`: its entries and the last hash.
  unfoldable pub export_entries :
      String → List AuditEvent → Checked ChainError (List ChainEntry × String)
  export_entries previous [] = passed ([], previous)
  export_entries previous (event ∷ events) = do
    event_hash ← hash_json event
    rest ← export_entries (hash_strings previous event_hash) events
    passed (entry_of previous event event_hash ∷ rest.0, rest.1)

  unfoldable pub export_chain : List AuditEvent → Time → Checked ChainError Chain
  export_chain events generated_at = do
    done ← export_entries "" events
    passed (record {
      schema_version = chain_schema_version;
      generated_at = generated_at;
      event_count = length done.0;
      root_hash = done.1;
      entries = done.0;
    })

  -- One round of the loop of `VerifyChain`; `number` is that of the entry, from 1.
  unfoldable pub verify_entry : ℕ → String → ChainEntry → Checked ChainError (Unit {0})
  verify_entry number previous entry = do
    refuse_if (entry.previous_hash != previous) (previous_mismatch number)
    refuse_if (entry.sequence != entry.event.sequence) (sequence_mismatch number)
    event_hash ← hash_json entry.event
    refuse_if (entry.event_hash != event_hash) (event_mismatch entry.sequence)
    refuse_if (entry.chain_hash != hash_strings entry.previous_hash entry.event_hash)
        (chain_mismatch entry.sequence)

  -- The loop of `VerifyChain`: the last hash.
  unfoldable pub verify_entries : ℕ → String → List ChainEntry → Checked ChainError String
  verify_entries number previous [] = passed previous
  verify_entries number previous (entry ∷ entries) = do
    verify_entry number previous entry
    verify_entries (suc number) entry.chain_hash entries

  unfoldable pub verify_chain : Chain → Checked ChainError (Unit {0})
  verify_chain chain = do
    refuse_if (chain.schema_version != chain_schema_version)
        (unsupported_schema chain.schema_version)
    refuse_if (chain.event_count != length chain.entries) count_mismatch
    last ← verify_entries 1 "" chain.entries
    refuse_if (chain.root_hash != last) root_mismatch
