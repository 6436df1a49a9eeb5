-- ===== src/Transfers/Endpoint.antt =====
-- Transfer endpoints of crates/transfers/src/lib.rs, with the path policy that its SCP endpoints
-- take from crates/remote/src/scp.rs. A path is the list of its bytes.
use cloud_desk_os.Prelude.{
  ℕ, Bool, true, false, not, ◌&&◌, ◌||◌, Option, none, some, List, [], ◌∷◌, String, str_eq, ltb,
  ◌==◌, if◌then◌else◌, length, is_empty, any,
}
use cloud_desk_os.Prelude.Texts.{split_slash}

abbrev pub Bytes : Type 0
Bytes = List ℕ

pub data TransferEndpoint : Type 0 where
  local : Bytes → TransferEndpoint
  sftp scp web_dav : String → Bytes → TransferEndpoint
  s3 : String → Bytes → Bytes → TransferEndpoint

pub data TransferStrategy : Type 0 where
  direct server_relay : TransferStrategy

-- The first part of `provider_key`: which provider an endpoint names.
pub data Provider : Type 0 where
  local sftp scp web_dav s3 : Provider

unfoldable pub provider_key : TransferEndpoint → Provider × Option String
provider_key (TransferEndpoint.local path) = (Provider.local, none)
provider_key (TransferEndpoint.sftp server path) = (Provider.sftp, some server)
provider_key (TransferEndpoint.scp server path) = (Provider.scp, some server)
provider_key (TransferEndpoint.web_dav connection path) = (Provider.web_dav, some connection)
provider_key (TransferEndpoint.s3 connection bucket key) = (Provider.s3, some connection)

-- Equality of the provider names, `==` on `&'static str`.
unfoldable pub provider_eq : Provider → Provider → Bool
provider_eq Provider.local Provider.local = true
provider_eq Provider.sftp Provider.sftp = true
provider_eq Provider.scp Provider.scp = true
provider_eq Provider.web_dav Provider.web_dav = true
provider_eq Provider.s3 Provider.s3 = true
provider_eq _ _ = false

-- Equality of `Option<&str>`.
unfoldable pub id_eq : Option String → Option String → Bool
id_eq none none = true
id_eq (some a) (some b) = str_eq a b
id_eq _ _ = false

unfoldable pub select_strategy : TransferEndpoint → TransferEndpoint → TransferStrategy
unfolding provider_key provider_eq id_eq
select_strategy source destination =
    let source_key = provider_key source in
    let destination_key = provider_key destination in
    if provider_eq source_key.0 destination_key.0 && id_eq source_key.1 destination_key.1
    then direct
    else server_relay

abbrev pub max_filename_bytes : ℕ
max_filename_bytes = 1024

-- The segment `..`.
unfoldable pub is_dot_dot : Bytes → Bool
is_dot_dot [] = false
is_dot_dot (a ∷ []) = false
is_dot_dot (a ∷ b ∷ []) = a == b'.' && b == b'.'
is_dot_dot (a ∷ b ∷ c ∷ r) = false

unfoldable pub has_dot_dot : Bytes → Bool
unfolding split_slash is_dot_dot any
has_dot_dot path =
    let (segment, rest) = split_slash path in is_dot_dot segment || any is_dot_dot rest

-- Whether `validate_scp_remote_path` returns `Ok`, its three checks in order.
unfoldable pub validate_scp_remote_path : Bytes → Bool
unfolding has_dot_dot any
validate_scp_remote_path path =
    if is_empty path || ltb max_filename_bytes (length path)
    then false
    else if any (λ b. b == 0 || ltb b 0x20) path
    then false
    else not (has_dot_dot path)

unfoldable pub is_nonempty_endpoint : TransferEndpoint → Bool
is_nonempty_endpoint (TransferEndpoint.local path) = not (is_empty path)
is_nonempty_endpoint (TransferEndpoint.sftp server path) = not (is_empty path)
is_nonempty_endpoint (TransferEndpoint.scp server path) = not (is_empty path)
is_nonempty_endpoint (TransferEndpoint.web_dav connection path) = not (is_empty path)
is_nonempty_endpoint (TransferEndpoint.s3 connection bucket key) =
    not (is_empty bucket) && not (is_empty key)

unfoldable pub passes_scp_policy : TransferEndpoint → Bool
unfolding validate_scp_remote_path
passes_scp_policy (TransferEndpoint.scp server path) = validate_scp_remote_path path
passes_scp_policy (TransferEndpoint.local path) = true
passes_scp_policy (TransferEndpoint.sftp server path) = true
passes_scp_policy (TransferEndpoint.web_dav connection path) = true
passes_scp_policy (TransferEndpoint.s3 connection bucket key) = true
