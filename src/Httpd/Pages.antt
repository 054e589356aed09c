-- ===== src/Httpd/Pages.antt =====
-- apps/httpd.c: the texts of the web pages, as the bytes of the string literals. The tabs are those with
-- which the source continues a literal on its next line.
use roip.Prelude.{ℕ, List, ◌++◌, codes}

unfoldable pub pg_header : List ℕ
pg_header =
    codes "HTTP/1.0 200 OK\r\nContent-type: text/html\r\n\r\n<html> <head><title>Network<"
    ++ (codes "/title></head> <body> <h2><b> The current network configuration </b></h2>")

unfoldable pub pg_form_pass : List ℕ
pg_form_pass =
    codes "<form action=\"pass_sent.cgi\"> \t\tEnter password: <input type=\"password\" n"
    ++ (codes "ame=\"password\" maxlength=\"15\" size=\"15\" value=\"")

unfoldable pub pg_form0 : List ℕ
pg_form0 =
    codes "<form action=\"ip_set.cgi\"> \t\tLocal IP address: <input type=\"text\" name=\""
    ++ (codes "ip_local1\" maxlength=\"3\" size=\"3\" value=\"")

unfoldable pub pg_form1 : List ℕ
pg_form1 = codes "\"><input type=\"text\" name=\"ip_local2\" maxlength=\"3\" size=\"3\" value=\""

unfoldable pub pg_form2 : List ℕ
pg_form2 = codes "\"><input type=\"text\" name=\"ip_local3\" maxlength=\"3\" size=\"3\" value=\""

unfoldable pub pg_form3 : List ℕ
pg_form3 = codes "\"><input type=\"text\" name=\"ip_local4\" maxlength=\"3\" size=\"3\" value=\""

unfoldable pub pg_form4 : List ℕ
pg_form4 =
    codes "\"><br>\t\tGateway IP address: <input type=\"text\" name=\"ip_gateway1\" maxle"
    ++ (codes "ngth=\"3\" size=\"3\" value=\"")

unfoldable pub pg_form5 : List ℕ
pg_form5 =
    codes "\"><input type=\"text\" name=\"ip_gateway2\" maxlength=\"3\" size=\"3\" value="
    ++ (codes "\"")

unfoldable pub pg_form6 : List ℕ
pg_form6 =
    codes "\"><input type=\"text\" name=\"ip_gateway3\" maxlength=\"3\" size=\"3\" value="
    ++ (codes "\"")

unfoldable pub pg_form7 : List ℕ
pg_form7 =
    codes "\"><input type=\"text\" name=\"ip_gateway4\" maxlength=\"3\" size=\"3\" value="
    ++ (codes "\"")

unfoldable pub pg_form8 : List ℕ
pg_form8 =
    codes "\"><br>\t\tNetwork mask: <input type=\"text\" name=\"ip_nm1\" maxlength=\"3\" "
    ++ (codes "size=\"3\" value=\"")

unfoldable pub pg_form9 : List ℕ
pg_form9 = codes "\"><input type=\"text\" name=\"ip_nm2\" maxlength=\"3\" size=\"3\" value=\""

unfoldable pub pg_form10 : List ℕ
pg_form10 = codes "\"><input type=\"text\" name=\"ip_nm3\" maxlength=\"3\" size=\"3\" value=\""

unfoldable pub pg_form11 : List ℕ
pg_form11 = codes "\"><input type=\"text\" name=\"ip_nm4\" maxlength=\"3\" size=\"3\" value=\""

unfoldable pub pg_form12 : List ℕ
pg_form12 =
    codes "\"><br>\t\tServer 1: <input type=\"text\" name=\"ip_server11\" maxlength=\"3\""
    ++ (codes " size=\"3\" value=\"")

unfoldable pub pg_form13 : List ℕ
pg_form13 =
    codes "\"><input type=\"text\" name=\"ip_server12\" maxlength=\"3\" size=\"3\" value="
    ++ (codes "\"")

unfoldable pub pg_form14 : List ℕ
pg_form14 =
    codes "\"><input type=\"text\" name=\"ip_server13\" maxlength=\"3\" size=\"3\" value="
    ++ (codes "\"")

unfoldable pub pg_form15 : List ℕ
pg_form15 =
    codes "\"><input type=\"text\" name=\"ip_server14\" maxlength=\"3\" size=\"3\" value="
    ++ (codes "\"")

unfoldable pub pg_form16 : List ℕ
pg_form16 =
    codes "\"><br>\t\tServer 2: <input type=\"text\" name=\"ip_server21\" maxlength=\"3\""
    ++ (codes " size=\"3\" value=\"")

unfoldable pub pg_form17 : List ℕ
pg_form17 =
    codes "\"><input type=\"text\" name=\"ip_server22\" maxlength=\"3\" size=\"3\" value="
    ++ (codes "\"")

unfoldable pub pg_form18 : List ℕ
pg_form18 =
    codes "\"><input type=\"text\" name=\"ip_server23\" maxlength=\"3\" size=\"3\" value="
    ++ (codes "\"")

unfoldable pub pg_form19 : List ℕ
pg_form19 =
    codes "\"><input type=\"text\" name=\"ip_server24\" maxlength=\"3\" size=\"3\" value="
    ++ (codes "\"")

unfoldable pub pg_change_pass_req : List ℕ
pg_change_pass_req = codes "<br><br><a href=\"change_pass.cgi\">Change password</a>"

unfoldable pub pg_form_pass_change : List ℕ
pg_form_pass_change = codes "<form action=\"pass_set.cgi\">"

unfoldable pub pg_form22 : List ℕ
pg_form22 =
    codes "<br>\t\tOld password: <input type=\"password\" name=\"old_password\" maxlength"
    ++ (codes "=\"15\" size=\"15\" value=\"")

unfoldable pub pg_form20 : List ℕ
pg_form20 =
    codes "\"><br>\t\tNew password: <input type=\"password\" name=\"new_password\" maxlen"
    ++ (codes "gth=\"15\" size=\"15\" value=\"")

unfoldable pub pg_form21 : List ℕ
pg_form21 =
    codes "\"><br>\t\tConfirm new password: <input type=\"password\" name=\"confirm_passw"
    ++ (codes "ord\" maxlength=\"15\" size=\"15\" value=\"")

unfoldable pub pg_changed_configuration : List ℕ
pg_changed_configuration = codes "<p>Please wait, chip is going to reset.</p>"

unfoldable pub pg_wrong_password : List ℕ
pg_wrong_password = codes "<p>You've just entered the wrong password!</p>"

unfoldable pub pg_change_password_unsuccessful : List ℕ
pg_change_password_unsuccessful = codes "<p>There was an error changing password!</p>"

unfoldable pub pg_no_changed_password : List ℕ
pg_no_changed_password = codes "<p>Password had NOT been changed.</p>"

unfoldable pub pg_changed_password : List ℕ
pg_changed_password = codes "<p>Password has been changed.</p>"

unfoldable pub pg_unknown_rq : List ℕ
pg_unknown_rq = codes "<p>Unknown request. Please, try again.</p>"

unfoldable pub pg_form_tail : List ℕ
pg_form_tail = codes "\"><br>\t\t<input type=\"submit\" value=\"APPLY\">\t\t</form>"

unfoldable pub pg_tail : List ℕ
pg_tail = codes "</body> </html>"
