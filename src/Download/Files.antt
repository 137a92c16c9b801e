-- ===== src/Download/Files.antt =====
-- download.c and util.c: which files a download leaves in the directory.
use powaur.Base.{Bool, false, ◌&&◌, ◌||◌, List, [], ◌∷◌}
use powaur.Base.{◌==◌}
use powaur.Util.{Str, same_str}
use powaur.Download.{Outside, archive_name, package_url, ArchiveEntry, is_error}

abbrev pub holds : Str → List Str → Bool
holds name [] = false
holds name (file ∷ files) = same_str file name || holds name files

-- The archive of the package could be written and the whole of it was received.
abbrev pub received : Outside → Str → Bool
received o pkgname =
    o.fopen (archive_name pkgname)
    && (o.curl_easy_perform (package_url pkgname) == 0
        && o.response_code (package_url pkgname) == 200)

abbrev pub opens : Outside → Str → Bool
opens o filename = o.archive_read_new filename && o.archive_read_open filename

-- Whether an entry of that name is written.
abbrev pub writes : List ArchiveEntry → Str → Bool
writes [] name = false
writes (entry ∷ entries) name =
    (entry.written && same_str entry.pathname name) || writes entries name

-- Whether an entry fails.
abbrev pub has_error : List ArchiveEntry → Bool
has_error [] = false
has_error (entry ∷ entries) = is_error entry.extracted || has_error entries
