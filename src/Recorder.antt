-- ===== src/Recorder.antt =====
-- torch_mojo_backend/distributed/flight_recorder.py, `Recorder`: the eager calls' records, which
-- `begin` writes and `_record` looks up. A call's name and stack and a dtype are numbers here.
pub mod Ring
pub mod Entries
pub mod Completion
pub mod Links
pub mod Status
use Prim.Native.Nat.{bit_or}
use torch_mojo_backend.Prelude.{
  ℕ, ◌+◌, ◌*◌, ◌%◌, Option, none, some, List, [], ◌∷◌, ◌==◌, if◌then◌else◌, get_elem?, set,
  replicate, length,
}

-- What `begin` is given: the `_Record` of flight_recorder.py without its tag.
pub record Description : Type 0 where
  pub name : ℕ
  pub in_shapes : List (List ℕ)
  pub in_dtypes : List ℕ
  pub out_shapes : List (List ℕ)
  pub out_dtypes : List ℕ
  pub stack : ℕ

-- `_records`, by slot, and the next tag of `_tags`
pub record Recorder : Type 0 where
  pub records : List (Option (ℕ × Description))
  pub next_tag : ℕ

-- `Recorder.__init__`
unfoldable pub new_recorder : ℕ → Recorder
new_recorder size = record { records = replicate (2 * size) none; next_tag = 1 }

-- `Recorder.begin`, and the tag word that it returns
unfoldable pub begin : Recorder → Description → ℕ → Recorder × ℕ
begin r d flags =
    let tag = r.next_tag in
    (
      record {
        records = set r.records (tag % length r.records) (some (tag, d));
        next_tag = tag + 1;
      },
      bit_or tag flags,
    )

-- `r if r is not None and r[0] == tag else None`
abbrev pub tagged : Option (Option (ℕ × Description)) → ℕ → Option Description
tagged (some (some (t, d))) tag = if t == tag then some d else none
tagged _ tag = none

-- `_record(records, tag)`; tag 0 stands for none
unfoldable pub find_record : List (Option (ℕ × Description)) → ℕ → Option Description
find_record records tag =
    if tag == 0 then none else tagged (get_elem? records (tag % length records)) tag
