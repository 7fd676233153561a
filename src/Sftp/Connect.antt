-- ===== src/Sftp/Connect.antt =====
-- The connection of internal/filesystem/sftp_client.go is never made.
use file_server_management.Prelude.{◌≡◌, refl, err, Result-cases, inl, inr, ◌⊎◌}
use file_server_management.Text.{Text}
use file_server_management.FilePath.{clean}
use file_server_management.Sftp.{
  SftpFs, SftpError, Ssh, host_key_callback, host_key_not_configured, auth_method, connect,
  new_sftp_fs,
}

-- `NewSftpFs` fails, whatever the server, the user and the keys are: with the error of the choice
-- of an authentication, or because no host keys are configured. It never dials.
new_sftp_fs-err :
    (ssh : Ssh) (addr user password private_key base_root : Text)
    → let cfg : SftpFs = record {
      addr = addr;
      user = user;
      password = password;
      private_key = private_key;
      base_root = clean base_root;
    } in
      (e : SftpError) × (new_sftp_fs ssh addr user password private_key base_root ≡ err e)
      × ((e ≡ host_key_not_configured) ⊎ (auth_method ssh cfg ≡ err e))
unfolding new_sftp_fs connect host_key_callback
new_sftp_fs-err ssh addr user password private_key base_root =
    let cfg : SftpFs = record {
      addr = addr;
      user = user;
      password = password;
      private_key = private_key;
      base_root = clean base_root;
    } in
    elim (Result-cases (auth_method ssh cfg)) [
      | inl (a, chosen) ↦ (host_key_not_configured, rw chosen, inl refl)
      | inr (e, failed) ↦ (e, rw failed, inr failed)
    ]
