-- ===== src/NativeHost/Storage/Replies.antt =====
-- What `submit_storage` answers to a request whose operation the journal has.
use mola_core.Base.{
  ℕ, String, ◌≡◌, ◌≢◌, ◌≤◌, true, false, some, arith, str_eq, eq_iff, if◌then◌else◌, Bool-cases,
  inl, inr,
}
use mola_core.Base.Failing.{ok, err, exec_bind}
use mola_core.Base.Dict.{lookup}
use mola_core.NativeHost.Storage.Journal.{
  conflict, Receipt, State, Host, Request, modify, operation_path, public, is_pending, with_worker,
  storage_receipt, repeated, found_or_accepted, submit_storage,
}

differ : (a b : String) → a ≢ b → str_eq a b ≡ false
differ a b other = elim (Bool-cases (str_eq a b)) [
  | inl same ↦ elim (other ((eq_iff a b).0 same)) [ ]
  | inr apart ↦ apart
]

-- A request for an operation that the journal has. If its payload has the fingerprint that was
-- recorded, the answer is the receipt as it stands, the journal is unchanged, and a worker is started
-- only for a pending receipt; otherwise it is refused as a conflict, and nothing changes.
pub repeated_request :
    (h : Host) (q : Request) (s : State) (g : ℕ) (o path : String) (r : Receipt)
    → q.generation ≡ some g
    → 1 ≤ g
    → q.operation_id ≡ some o
    → operation_path h q.verb o ≡ ok path
    → lookup path s.journal ≡ some r
    → (r.fingerprint ≡ h.digest q.payload
        → submit_storage h q s
          ≡ (ok (public r), (if is_pending r.status then with_worker path s else s)))
      × (r.fingerprint ≢ h.digest q.payload
          → submit_storage h q s
            ≡ (err (conflict "Operation ID was already used with a different payload"), s))
unfolding submit_storage exec_bind found_or_accepted repeated modify storage_receipt
repeated_request h q s g o path r is_g pos is_o is_path e = (
  λ same.
      let t : str_eq r.fingerprint (h.digest q.payload) ≡ true =
        (eq_iff r.fingerprint (h.digest q.payload)).1 same in
      ground arith,
  λ other.
      let f : str_eq r.fingerprint (h.digest q.payload) ≡ false =
        differ r.fingerprint (h.digest q.payload) other in
      ground arith,
)
