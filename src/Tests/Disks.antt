-- ===== src/Tests/Disks.antt =====
-- A file system that keeps its files in a map, and texts that are the values themselves.
use memoria_mcp.Prelude.{
  ℕ, suc, ◌≡◌, refl, ap, String, Option, none, some, List, Result, ok, err, arith, eq_iff,
}
use memoria_mcp.Map
use memoria_mcp.Map.{Map}
use memoria_mcp.Map.Laws.{get-insert}
use memoria_mcp.Store.{VectorRecord}
use memoria_mcp.Memory.{HistoryEntry}
use memoria_mcp.Server.Auth.Snapshot.{AuthSnapshot, AuthFormat}
use memoria_mcp.Snapshot.{Disk, Format}
use memoria_mcp.Tests.Samples.{IsNumber}
use memoria_mcp.Snapshot.Files.{IsFaithful, IsReliable}

pub data File : Type 0 where
  records_file : List (VectorRecord ℕ) → File
  history_file : Map (List HistoryEntry) → File
  accounts_file : AuthSnapshot → File

-- The number of temporary files, and the files.
pub record Files : Type 0 where
  pub drawn : ℕ
  pub contents : Map File

abbrev pub file_in : Option File → Result String File
file_in none = err "no such file"
file_in (some f) = ok f

abbrev rename_to : String → Option File → Files → Result String (Unit {0}) × Files
rename_to new none d = (err "no such file", d)
rename_to new (some f) d = (ok tt, record d { contents = Map.insert new f d.contents })

abbrev pub in_map : Disk Files File
in_map = record {
  create_dir_all = λ path d. (ok tt, d);
  next_unique = λ d. (ok d.drawn, record d { drawn = suc d.drawn });
  write = λ path f d. (ok tt, record d { contents = Map.insert path f d.contents });
  rename = λ old new d. rename_to new (Map.get old d.contents) d;
  read_to_string = λ path d. file_in (Map.get path d.contents);
  parent = λ path. some "/data";
  with_extension = λ path extension. extension;
  with_file_name = λ path name. name;
}

abbrev records_in : File → Option (List (VectorRecord ℕ))
records_in (records_file rs) = some rs
records_in other = none

abbrev history_in : File → Option (Map (List HistoryEntry))
history_in (history_file h) = some h
history_in other = none

abbrev accounts_in : File → Option AuthSnapshot
accounts_in (accounts_file a) = some a
accounts_in other = none

abbrev pub values : Format ℕ File
values = record {
  print_records = records_file;
  parse_records = records_in;
  print_history = history_file;
  parse_history = history_in;
}

abbrev pub account_values : AuthFormat File
account_values = record { print = accounts_file; parse = accounts_in }

get-inserted :
    (path : String) (f : File) (m : Map File) → Map.get path (Map.insert path f m) ≡ some f
get-inserted path f m = ground (arith, eq_iff path path, get-insert path path f m)

pub in_map-IsFaithful : IsFaithful in_map
in_map-IsFaithful = record {
  read-write = λ path f d d' e. written path f d d' e;
  read-rename =
      λ old new f d d' read e. renamed old new f d d' read (Map.get old d.contents) refl e;
}
  where
    written :
        (path : String) (f : File) (d d' : Files)
        → in_map.write path f d ≡ (ok tt, d')
        → in_map.read_to_string path d' ≡ ok f
    written path f d d' e =
        let same : record d { contents = Map.insert path f d.contents } ≡ d' =
          ap (λ (t : Result String (Unit {0}) × Files). t.1) e in
        rw (← same, get-inserted path f d.contents) refl

    renamed :
        (old new : String) (f : File) (d d' : Files)
        → in_map.read_to_string old d ≡ ok f
        → (found : Option File) → Map.get old d.contents ≡ found
        → in_map.rename old new d ≡ (ok tt, d')
        → in_map.read_to_string new d' ≡ ok f
    renamed old new f d d' read none here e = absurd (cc (rw here at read))
    renamed old new f d d' read (some g) here e =
        let same : record d { contents = Map.insert new g d.contents } ≡ d' =
          ap (λ (t : Result String (Unit {0}) × Files). t.1) (rw here at e) in
        rw (← same, get-inserted new g d.contents) (rw here at read)

pub in_map-IsReliable : IsReliable IsNumber in_map values
in_map-IsReliable = record {
  files = in_map-IsFaithful;
  parse-print = λ rs finite. refl;
  parse-print_history = λ h. refl;
}
