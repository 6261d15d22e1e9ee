-- ===== src/Jobs/Download/Served.antt =====
-- What a download leaves for `serveFile`.
use ol1n_super_app.Base.{ℕ, ◌+◌, ◌≡◌, refl, Option, some, Bytes}
use ol1n_super_app.Db.Tables.{Db, DownloadToken, ok, Ctx}
use ol1n_super_app.Db.Tokens.{find_token}
use ol1n_super_app.Handler.Download.{DownloadJob}
use ol1n_super_app.Jobs.Worker.{no_event, Event, Store, find_file, done}
use ol1n_super_app.Jobs.Download.{download_url, DownloadEnv, RunError, out_path}

abbrev new_row : Ctx → Bytes → Bytes → ℕ → DownloadToken
new_row c token artifact_id ttl = record {
  token = token;
  artifact_id = artifact_id;
  expires_at = c.now + ttl;
  created_at = c.now;
}

done-files : (c : Ctx) (id : Bytes) (e : Event) (s : Store) → (done c id e s).files ≡ s.files
unfolding done
done-files c id e s = refl

-- The body of a fetch that ended well.
abbrev Ready : DownloadEnv → DownloadJob → Bytes → Store × Option RunError → Bytes → Type 0
Ready env j token r body =
    (find_file (out_path env j) r.0.files ≡ some body)
    × (find_token token r.0.db.download_tokens
        ≡ ok (new_row env.token_ctx token j.artifact_id env.token_ttl))

abbrev done_event : DownloadJob → Bytes → Event
done_event j url = record no_event {
  artifact_id = j.artifact_id;
  download_url = url;
  content_type = j.content_type;
}
