-- ===== src/Mock/Objects.antt =====
-- The objects and files of the simulated slaves.
use openethercat.Base.{ℕ, ◌≡◌, arith, Bool, true, ◌&&◌, List, String, if◌then◌else◌, ◌==◌}
use openethercat.Base.Bytes.{IsByte, IsU16}
use openethercat.Base.Maps.{find-put, nat_key}
use openethercat.Sdo.{SdoAddress}
use openethercat.Transport.{SdoCall, FoeRequest, FoeResponse}
use openethercat.Mock.{MockTransport}
use openethercat.Mock.Services.{
  sdo_key, sdo_upload_mock, sdo_download_mock, foe_key, foe_read_mock, foe_write_mock,
}

abbrev pub IsAddress : ℕ → SdoAddress → Type 0
IsAddress position a = IsU16 position × IsU16 a.index × IsByte a.sub_index

abbrev same_object : ℕ → SdoAddress → ℕ → SdoAddress → Bool
same_object p a q b = p == q && (a.index == b.index) && (a.sub_index == b.sub_index)

sdo_key_eq :
    (p q : ℕ) (a b : SdoAddress)
    → IsAddress p a
    → IsAddress q b
    → (sdo_key p a == sdo_key q b) ≡ same_object p a q b
unfolding sdo_key
sdo_key_eq p q a b h k = ground arith

-- An object that was downloaded is what an upload from its address gives, and an upload from any
-- other address, of the same or another slave, gives what it gave before.
pub upload-download :
    (m : MockTransport) (p q : ℕ) (a b : SdoAddress) (bytes : List ℕ) (down up : SdoCall)
    → m.opened ≡ true
    → IsAddress p a
    → IsAddress q b
    → (sdo_upload_mock q b up (sdo_download_mock p a bytes down m).0).1 ≡ (
        if same_object p a q b
        then record up { ok = true; abort_code = 0; bytes = bytes }
        else (sdo_upload_mock q b up m).1)
unfolding sdo_upload_mock sdo_download_mock
upload-download m p q a b bytes down up o h k =
    ground (arith, sdo_key_eq p q a b h k, find-put (sdo_key p a) (sdo_key q b) bytes m.sdo_objects)

-- A file that was written is read back from the slave it was written to; a read whose key differs
-- gives what it gave before.
read-write_foe :
    (hash : String → ℕ) (m : MockTransport) (p q : ℕ) (written asked : FoeRequest) (bytes : List ℕ)
    (response : FoeResponse) (we re : String)
    → m.opened ≡ true
    → (foe_read_mock hash q asked response re (foe_write_mock hash p written bytes we m).0).1 ≡ (
        if foe_key hash p written == foe_key hash q asked
        then (true, (record response { success = true; bytes = bytes; error = "" }, re))
        else (foe_read_mock hash q asked response re m).1)
unfolding foe_read_mock foe_write_mock
read-write_foe hash m p q written asked bytes response we re o =
    ground (arith, find-put (foe_key hash p written) (foe_key hash q asked) bytes m.foe_files)
