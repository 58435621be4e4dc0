-- ===== src/Providers/Download.antt =====
-- providers/exec/downloader.go. Package net/http and the files that are written as a stream are
-- parameters, with the types of requests, response bodies and open files.
use easyshift.Base.{ℕ, String, ◌<>◌, eqb}
use easyshift.Base.Text.{decimal}
use easyshift.Base.Action.{Action, Effect, ◌>>◌, ◌>>=◌, require, wrap, attempt, finally}
use easyshift.Interfaces.Os.{Files}
use easyshift.Interfaces.Providers.{Downloader}

pub record Http (W Request Body File : Type 0) : Type 0 where
  pub new_request : String → Action W Request
  pub send : Request → Action W (ℕ × Body)  -- the status and the body of the response
  pub close_body : Body → Effect W
  pub create : String → Action W File
  pub copy : File → Body → Effect W
  pub close : File → Effect W

module _ {W Request Body File : Type 0} (files : Files W) (http : Http W Request Body File)
    (dir : String → String) where
  -- The file is created once the response is there, and a copy that fails leaves it.
  unfoldable pub write_body : String → Body → Effect W
  write_body dest body = do
    out ← wrap (λ e. "create " <> (dest <> (": " <> e))) (http.create dest)
    finally (attempt (http.close out))
        (wrap (λ e. "write " <> (dest <> (": " <> e))) (http.copy out body))

  unfoldable pub download : String → String → Effect W
  unfolding write_body
  download url dest = do
    wrap (λ e. "create dest dir: " <> e) (files.mkdir_all (dir dest))
    req ← wrap (λ e. "build request: " <> e) (http.new_request url)
    (status, body) ← wrap (λ e. "http get " <> (url <> (": " <> e))) (http.send req)
    finally (attempt (http.close_body body)) (
        require (eqb status 200) ("http get " <> (url <> (": status " <> decimal status)))
        >> write_body dest body)

  unfoldable pub downloader : Downloader W
  downloader = record { download = download }
