-- ===== src/Queue/Process.antt =====
-- What the two processors do with the tasks that the API enqueues.
use file_server_management.Prelude.{◌≡◌, ◌≢◌, refl, [], ◌++◌, err, arith}
use file_server_management.Text.{Text, txt, text_eq, text_eq_iff, trim_suffix}
use file_server_management.Queue.{
  create_folder_payload, missing_params, Backend, Disk, ran, process, process_create_folder,
  fs_process, fs_create_folder,
}

module _ {W : Type 0} where
  -- The worker runs an enqueued folder creation as one call of the backend, on the parent without
  -- its last slash, a slash, and the name.
  pub process-create_folder_payload :
      (st : Backend W) (id parent_path folder_name requested_by : Text) (w : W)
      → parent_path ≢ []
      → folder_name ≢ []
      → process st (create_folder_payload id parent_path folder_name requested_by) w
        ≡ ran (st.create_folder (trim_suffix parent_path (txt "/") ++ txt "/" ++ folder_name) w)
  unfolding process process_create_folder text_eq
  process-create_folder_payload st id parent_path folder_name requested_by w p n =
      ground (arith, text_eq_iff parent_path [], text_eq_iff folder_name [])

  -- `FSProcessor` refuses every folder creation that `EnqueueCreateFolder` enqueues: it looks for
  -- "path" and "folder", and finds neither.
  pub fs_process-create_folder_payload :
      (fs : Disk W) (id parent_path folder_name requested_by : Text) (w : W)
      → fs_process fs (create_folder_payload id parent_path folder_name requested_by) w
        ≡ (err missing_params, w)
  unfolding fs_process fs_create_folder text_eq
  fs_process-create_folder_payload fs id parent_path folder_name requested_by w = refl
