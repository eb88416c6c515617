-- ===== src/Server/Members.antt =====
-- pkg/server/lease.go, cluster.go and maintenance.go: the calls that do not only return an error. Headers
-- of responses are empty.
use kine.Prelude.{
  ℕ, Option, none, some, List, [], ◌∷◌, ◌++◌, ◌==◌, map, drop, length, Bytes, codes, str_eq,
  has_prefix, if◌then◌else◌,
}
use kine.Types.{Error}
use kine.Server.Backend.{Backend}

pub record LeaseGrantResponse : Type 0 where
  pub id : ℕ
  pub ttl : ℕ

-- The id of a lease is its time to live, in seconds.
abbrev pub lease_grant : ℕ → LeaseGrantResponse
lease_grant ttl = record { id = ttl; ttl = ttl }

-- `strings.TrimPrefix(s, pre)`, `strings.TrimSuffix(s, "]")` and `strings.ReplaceAll(s, ";", ",")`
abbrev pub without_prefix : Bytes → Bytes → Bytes
without_prefix s pre = if has_prefix s pre then drop (length pre) s else s

abbrev pub without_bracket : Bytes → Bytes
without_bracket [] = []
without_bracket (c ∷ s) =
    let rest = without_bracket s in if str_eq (c ∷ s) (codes "]") then [] else c ∷ rest

abbrev pub with_commas : Bytes → Bytes
with_commas = map (λ c. if c == 59 then 44 else c)

abbrev pub initially : Bytes
initially = codes "#initially=["

abbrev pub default_authority : Bytes
default_authority = codes "127.0.0.1:2379"

abbrev pub with_scheme : Bytes → Bytes → Bytes
with_scheme scheme authority = scheme ++ codes "://" ++ authority

abbrev pub url_of : Bytes → Bytes → Bytes
url_of scheme authority =
    if has_prefix authority initially
    then with_commas (without_bracket (without_prefix authority initially))
    else with_scheme scheme authority

-- `metadata` are the values of `:authority`, if the call has metadata.
abbrev pub authority_url : Option (List Bytes) → Bytes → Bytes
authority_url none scheme = with_scheme scheme default_authority
authority_url (some []) scheme = with_scheme scheme default_authority
authority_url (some (authority ∷ more)) scheme = url_of scheme authority

pub record Member : Type 0 where
  pub name : Bytes
  pub client_urls : List Bytes
  pub peer_urls : List Bytes

abbrev pub member_list : Option (List Bytes) → Bytes → List Member
member_list metadata scheme =
    let listen_url = authority_url metadata scheme in
    record { name = codes "kine"; client_urls = listen_url ∷ []; peer_urls = listen_url ∷ [] } ∷ []

pub record StatusResponse : Type 0 where
  pub db_size : ℕ
  pub version : Bytes

abbrev pub status_of :
    {S : Type 0} → Bytes → (ℕ × Option Error) × S → (Option StatusResponse × Option Error) × S
status_of version ((size, some e), s) = ((none, some e), s)
status_of version ((size, none), s) =
    ((some (record { db_size = size; version = version }), none), s)

abbrev pub status :
    {S : Type 0} → Backend S → Bytes → S → (Option StatusResponse × Option Error) × S
status backend emulated_etcd_version s = status_of emulated_etcd_version (backend.db_size s)
