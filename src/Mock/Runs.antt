-- ===== src/Mock/Runs.antt =====
-- The theorems about the simulated network at concrete inputs.
use openethercat.Base.{ℕ, ◌≡◌, refl, true, [], ◌∷◌, String, arith}
use openethercat.Sdo.{SdoAddress}
use openethercat.Transport.{SdoCall, FoeRequest, FoeResponse}
use openethercat.Mock.{MockTransport, new_mock, open_mock}
use openethercat.Mock.Services.{sdo_upload_mock, sdo_download_mock}
use openethercat.Mock.Objects.{IsAddress, upload-download}

abbrev one_slave : MockTransport
unfolding open_mock new_mock
one_slave = (open_mock (new_mock 1 2)).0

abbrev name_object : SdoAddress
name_object = record { index = 0x1008; sub_index = 0 }

abbrev call : SdoCall
call = record { ok = true; bytes = []; abort_code = 0; error = "" }

abbrev recipe : FoeRequest
recipe = record { file_name = "recipe.bin"; password = 0; max_chunk_bytes = 1024 }

abbrev response : FoeResponse
response = record { success = true; bytes = []; error = "" }

abbrev no_hash : String → ℕ
no_hash s = 0

IsAddress_example : IsAddress 2 name_object
IsAddress_example = (omega arith, omega arith, omega arith)

upload-download_example :
    (sdo_upload_mock 2 name_object call
      (sdo_download_mock 2 name_object (65 ∷ []) call one_slave).0).1
    ≡ record call { bytes = 65 ∷ [] }
unfolding one_slave
upload-download_example =
    upload-download one_slave 2 2 name_object name_object (65 ∷ []) call call refl IsAddress_example
      IsAddress_example
